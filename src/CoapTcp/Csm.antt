-- ===== src/CoapTcp/Csm.antt =====
-- `encode_uint_option` and `build_coap_tcp_csm`: integers as options, and the capabilities message.
pub mod Parsed
use smart_things_local.Prelude.{
  ℕ, ◌/◌, ◌%◌, Bool, List, [], ◌∷◌, ◌++◌, Option, none, some, ltb, ◌==◌, if◌then◌else◌,
}
use smart_things_local.Prelude.Bytes.{Bytes, pack16, pack32}
use smart_things_local.Errors.{Result, ok, err, ◌>>=◌}
use smart_things_local.Coap.Options.{CoapOption}
use smart_things_local.CoapTcp.Frame.{validate_int, build_coap_tcp_message}

-- `value.to_bytes((value.bit_length() + 7) // 8, 'big')`, for a value below 2 ^ 32
abbrev pub shortest_bytes : ℕ → Bytes
shortest_bytes value =
    if value == 0
    then []
    else if ltb value 0x100
    then value ∷ []
    else if ltb value 0x10000
    then pack16 value
    else if ltb value 0x1000000
    then (value / 0x10000) ∷ (value / 0x100 % 0x100) ∷ (value % 0x100) ∷ []
    else pack32 value

unfoldable pub encode_uint_option : ℕ → Result Bytes
unfolding validate_int
encode_uint_option value = do value' ← validate_int value 0 0xffffffff; ok (shortest_bytes value')

abbrev pub csm_code : ℕ
csm_code = 0xe1

abbrev pub csm_max_message_size_option : ℕ
csm_max_message_size_option = 2

abbrev pub csm_block_wise_transfer_option : ℕ
csm_block_wise_transfer_option = 4

unfoldable pub max_size_option : Option ℕ → Result (List CoapOption)
max_size_option none = ok []
max_size_option (some size) = do
  size' ← validate_int size 2 0xffffffff
  value ← encode_uint_option size'
  ok ((csm_max_message_size_option, value) ∷ [])

abbrev pub block_wise_option : Bool → List CoapOption
block_wise_option b = if b then (csm_block_wise_transfer_option, []) ∷ [] else []

unfoldable pub build_coap_tcp_csm : Option ℕ → Bool → ℕ → Result Bytes
build_coap_tcp_csm receive_max_message_size block_wise_transfer max_message_size = do
  options ← max_size_option receive_max_message_size
  build_coap_tcp_message csm_code [] (options ++ block_wise_option block_wise_transfer) []
      max_message_size
