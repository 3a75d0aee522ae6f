-- ===== src/Coap/Block.antt =====
-- Block option values and the other integers in options: `block_value`, `block_fields` and
-- `decode_uint_option`.
pub mod Fields
use smart_things_local.Prelude.{
  ℕ, ◌+◌, ◌*◌, ◌/◌, ◌%◌, ◌^◌, bit_or, List, [], ◌∷◌, Option, none, some, ltb, leb, if◌then◌else◌,
  length, drop,
}
use smart_things_local.Prelude.Bytes.{Bytes, from_bytes, pack16, pack32}
use smart_things_local.Errors.{Result, ok, err, malformed_message, struct_error}
use smart_things_local.Coap.Options.{CoapOption, option_values}

-- The integer of a block option.
unfoldable pub block_word : ℕ → ℕ → ℕ → ℕ
block_word num more szx = bit_or (bit_or (num * 2 ^ 4) (more % 2 * 8)) (szx % 8)

-- `struct.pack('>I', v)[1:]` drops the highest of four bytes.
unfoldable pub block_value : ℕ → ℕ → ℕ → Result Bytes
unfolding block_word
block_value num more szx =
    let v = block_word num more szx in
    if leb v 0xff
    then ok (v ∷ [])
    else if leb v 0xffff
    then ok (pack16 v)
    else if ltb v (2 ^ 32)
    then ok (drop 1 (pack32 v))
    else err struct_error

pub record BlockFields : Type 0 where
  pub num : ℕ
  pub more : ℕ
  pub szx : ℕ

unfoldable pub block_fields : Bytes → BlockFields
block_fields value =
    let v = from_bytes value in record { num = v / 16; more = v / 8 % 2; szx = v % 8 }

-- The values that an option has in a message, for an option that may stand once.
unfoldable pub single_uint : List Bytes → ℕ → Result (Option ℕ)
single_uint [] max_length = ok none
single_uint (value ∷ []) max_length =
    if ltb max_length (length value) then err malformed_message else ok (some (from_bytes value))
single_uint (value ∷ _ ∷ _) max_length = err malformed_message

unfoldable pub decode_uint_option : List CoapOption → ℕ → ℕ → Result (Option ℕ)
unfolding single_uint
decode_uint_option options number max_length = single_uint (option_values options number) max_length
