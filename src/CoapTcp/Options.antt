-- ===== src/CoapTcp/Options.antt =====
-- Options in a CoAP-over-TCP message: `_encode_extended`, `_normalize_options`, `_encode_options`,
-- `_decode_extended` and `_decode_options`. A cursor into the bytes is what follows it.
pub mod SameCodec
use smart_things_local.Prelude.{
  ℕ, zero, suc, ◌+◌, ◌-◌, ◌*◌, ◌/◌, ◌%◌, bit_or, List, [], ◌∷◌, ◌++◌, ltb, leb, ◌==◌, if◌then◌else◌,
  length, take, drop,
}
use smart_things_local.Prelude.Bytes.{Bytes, from_bytes, pack16}
use smart_things_local.Errors.{Result, ok, err, codec_error, out_of_fuel, ◌>>=◌}
use smart_things_local.Coap.Options.{CoapOption, sort_options}

abbrev pub coap_max_option_number : ℕ
coap_max_option_number = 0xffff

abbrev pub coap_max_option_value_length : ℕ
coap_max_option_value_length = 65804

unfoldable pub encode_extended : ℕ → Result (ℕ × Bytes)
encode_extended value =
    if ltb value 13
    then ok (value, [])
    else if ltb value 269
    then ok (13, (value - 13) ∷ [])
    else if leb value coap_max_option_value_length
    then ok (14, pack16 (value - 269))
    else err codec_error

-- The checks of `_normalize_options` on each option, in their order.
unfoldable pub check_options : List CoapOption → Result (List CoapOption)
check_options [] = ok []
check_options ((number, value) ∷ os) =
    if ltb coap_max_option_number number
    then err codec_error
    else if ltb coap_max_option_value_length (length value)
    then err codec_error
    else do rest ← check_options os; ok ((number, value) ∷ rest)

unfoldable pub normalize_options : List CoapOption → Result (List CoapOption)
normalize_options options = do checked ← check_options options; ok (sort_options checked)

-- The loop of `_encode_options`, from the number of the option before.
unfoldable pub encode_options_from : ℕ → List CoapOption → Result Bytes
encode_options_from previous [] = ok []
encode_options_from previous ((number, value) ∷ os) = do
  (d, dx) ← encode_extended (number - previous)
  (l, lx) ← encode_extended (length value)
  rest ← encode_options_from number os
  ok (bit_or (d * 16) l ∷ (dx ++ (lx ++ (value ++ rest))))

unfoldable pub decode_extended : Bytes → ℕ → Result (ℕ × Bytes)
decode_extended bs nibble =
    if ltb nibble 13
    then ok (nibble, bs)
    else if nibble == 15
    then err codec_error
    else let size = if nibble == 13 then 1 else 2 in
      if ltb (length bs) size
      then err codec_error
      else ok ((if nibble == 13 then 13 else 269) + from_bytes (take size bs), drop size bs)

-- One round of the loop of `_decode_options` after the byte `first`, which is no marker.
unfoldable pub decode_option : ℕ → ℕ → Bytes → Result (CoapOption × Bytes)
decode_option previous first bs = do
  (delta, after_delta) ← decode_extended bs (first / 16)
  (len, body) ← decode_extended after_delta (first % 16)
  if ltb coap_max_option_number (previous + delta)
      then err codec_error
      else if ltb (length body) len
      then err codec_error
      else ok ((previous + delta, take len body), drop len body)

pub decode_payload : Bytes → Result (List CoapOption × Bytes)
decode_payload [] = err codec_error
decode_payload (b ∷ bs) = ok ([], b ∷ bs)

unfoldable pub decode_options : ℕ → ℕ → Bytes → Result (List CoapOption × Bytes)
unfolding decode_payload
decode_options fuel previous [] = ok ([], [])
decode_options zero previous (first ∷ bs) = err out_of_fuel
decode_options (suc fuel) previous (first ∷ bs) = if first == 0xff then decode_payload bs else do
  (o, rest) ← decode_option previous first bs
  (os, payload) ← decode_options fuel o.0 rest
  ok (o ∷ os, payload)
