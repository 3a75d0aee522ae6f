-- ===== src/Coap/Options.antt =====
-- The option list of a CoAP message: `_vlen`, `encode_options`, the option loop of `parse_coap`
-- and `option_values`. A read position `i` in the datagram is the suffix `data[i:]`.
pub mod Order
pub mod Extended
pub mod Encode
pub mod Decode
pub mod Failures
use smart_things_local.Prelude.{
  ℕ, zero, suc, ◌+◌, ◌-◌, ◌*◌, ◌/◌, ◌%◌, bit_or, List, [], ◌∷◌, ◌++◌, ltb, leb, ◌==◌, if◌then◌else◌,
  length, take, drop,
}
use smart_things_local.Prelude.Bytes.{Bytes, pack16}
use smart_things_local.Errors.{Result, ok, err, malformed_message, struct_error, out_of_fuel, ◌>>=◌}

-- An option: its number and its value.
abbrev pub CoapOption : Type 0
CoapOption = ℕ × Bytes

-- The nibble and the extended bytes of a delta or a length. `struct.pack('>H', x)` refuses
-- what does not fit in 16 bits.
unfoldable pub vlen : ℕ → Result (ℕ × Bytes)
vlen v =
    if ltb v 13
    then ok (v, [])
    else if ltb v 269
    then ok (13, (v - 13) ∷ [])
    else if leb (v - 269) 0xffff
    then ok (14, pack16 (v - 269))
    else err struct_error

-- `sorted(opts, key=lambda x: x[0])`, which is stable.
unfoldable pub insert_option : CoapOption → List CoapOption → List CoapOption
insert_option o [] = o ∷ []
insert_option o (p ∷ ps) = if leb o.0 p.0 then o ∷ p ∷ ps else p ∷ insert_option o ps

unfoldable pub sort_options : List CoapOption → List CoapOption
unfolding insert_option
sort_options [] = []
sort_options (o ∷ os) = insert_option o (sort_options os)

-- The loop of `encode_options`, from the number of the option before.
unfoldable pub encode_from : ℕ → List CoapOption → Result Bytes
encode_from prev [] = ok []
encode_from prev ((n, val) ∷ os) = do
  (d, dx) ← vlen (n - prev)
  (l, lx) ← vlen (length val)
  rest ← encode_from n os
  ok (bit_or (d * 16) l ∷ (dx ++ (lx ++ (val ++ rest))))

unfoldable pub encode_options : List CoapOption → Result Bytes
encode_options opts = encode_from 0 (sort_options opts)

-- The extended bytes of a delta or a length, after its nibble.
read_byte : Bytes → Result (ℕ × Bytes)
read_byte [] = err malformed_message
read_byte (a ∷ rest) = ok (13 + a, rest)

read_word : Bytes → Result (ℕ × Bytes)
read_word [] = err malformed_message
read_word (a ∷ []) = err malformed_message
read_word (a ∷ b ∷ rest) = ok (269 + (a * 256 + b), rest)

unfoldable pub read_extended : ℕ → Bytes → Result (ℕ × Bytes)
unfolding read_byte read_word
read_extended nib rest =
    if nib == 13
    then read_byte rest
    else if nib == 14
    then read_word rest
    else if nib == 15
    then err malformed_message
    else ok (nib, rest)

-- One round of the loop of `parse_coap` at the byte `b`, which is no payload marker: the option
-- and what follows it.
unfoldable pub read_option : ℕ → ℕ → Bytes → Result (CoapOption × Bytes)
read_option prev b rest = do
  (delta, after_delta) ← read_extended (b / 16) rest
  (len, body) ← read_extended (b % 16) after_delta
  if ltb (length body) len
      then err malformed_message
      else ok ((prev + delta, take len body), drop len body)

unfoldable pub read_payload : Bytes → Result (List CoapOption × Bytes)
read_payload [] = err malformed_message
read_payload (b ∷ bs) = ok ([], b ∷ bs)

-- The loop: the options and the payload.
unfoldable pub read_options : ℕ → ℕ → Bytes → Result (List CoapOption × Bytes)
unfolding read_payload
read_options fuel prev [] = ok ([], [])
read_options zero prev (b ∷ rest) = err out_of_fuel
read_options (suc fuel) prev (b ∷ rest) = if b == 0xff then read_payload rest else do
  (o, after) ← read_option prev b rest
  (os, payload) ← read_options fuel o.0 after
  ok (o ∷ os, payload)

-- The marker and the payload that `build_coap` appends, if there is a payload.
abbrev pub mark_payload : Bytes → Bytes
mark_payload [] = []
mark_payload (b ∷ bs) = 0xff ∷ b ∷ bs

-- `option_values`
unfoldable pub option_values : List CoapOption → ℕ → List Bytes
option_values [] number = []
option_values ((n, val) ∷ os) number =
    let rest = option_values os number in if n == number then val ∷ rest else rest
