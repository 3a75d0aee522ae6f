-- ===== src/CoapTcp/Frame.antt =====
-- Whole CoAP-over-TCP messages: the length field, `build_coap_tcp_message` and
-- `parse_coap_tcp_message`.
pub mod Length
pub mod RoundTrip
pub mod Failures
pub mod Capacity
use smart_things_local.Prelude.{
  ℕ, suc, ◌+◌, ◌-◌, ◌*◌, ◌/◌, ◌%◌, ◌^◌, bit_or, List, [], ◌∷◌, ◌++◌, Option, none, some, ltb, leb,
  ◌==◌, if◌then◌else◌, ◌||◌, length, take, drop,
}
use smart_things_local.Prelude.Bytes.{Bytes, from_bytes, pack16, pack32}
use smart_things_local.Errors.{Result, ok, err, codec_error, index_error, ◌>>=◌, ◌>>◌}
use smart_things_local.Coap.Options.{CoapOption, mark_payload}
use smart_things_local.CoapTcp.Options.{normalize_options, encode_options_from, decode_options}

abbrev pub coap_tcp_max_declared_length : ℕ
coap_tcp_max_declared_length = 0xffffffff + 65805

abbrev pub coap_tcp_max_message_size : ℕ
coap_tcp_max_message_size = coap_tcp_max_declared_length + 5 + 1 + 8

pub record CoapTcpMessage : Type 0 where
  pub code : ℕ
  pub token : Bytes
  pub options : List CoapOption
  pub payload : Bytes

-- `_validate_int` on an integer
unfoldable pub validate_int : ℕ → ℕ → ℕ → Result ℕ
validate_int value minimum maximum =
    if ltb value minimum || ltb maximum value then err codec_error else ok value

-- `_coerce_bytes` on a byte string
unfoldable pub coerce_bytes : Bytes → ℕ → Result Bytes
coerce_bytes value max_length = if ltb max_length (length value) then err codec_error else ok value

unfoldable pub validate_max_message_size : ℕ → Result ℕ
unfolding validate_int
validate_max_message_size value = validate_int value 2 coap_tcp_max_message_size

-- `_encode_length`
unfoldable pub encode_length : ℕ → ℕ → Result Bytes
encode_length n token_length =
    if ltb n 13
    then ok (bit_or (n * 2 ^ 4) token_length ∷ [])
    else if ltb n 269
    then ok (bit_or (13 * 2 ^ 4) token_length ∷ (n - 13) ∷ [])
    else if ltb n 65805
    then ok (bit_or (14 * 2 ^ 4) token_length ∷ pack16 (n - 269))
    else if leb n coap_tcp_max_declared_length
    then ok (bit_or (15 * 2 ^ 4) token_length ∷ pack32 (n - 65805))
    else err codec_error

unfoldable pub build_coap_tcp_message : ℕ → Bytes → List CoapOption → Bytes → ℕ → Result Bytes
unfolding validate_max_message_size validate_int coerce_bytes
build_coap_tcp_message code token options payload max_message_size = do
  maximum ← validate_max_message_size max_message_size
  code' ← validate_int code 0 0xff
  token_bytes ← coerce_bytes token 8
  payload_bytes ← coerce_bytes payload maximum
  normalized ← normalize_options options
  encoded_options ← encode_options_from 0 normalized
  let body = encoded_options ++ mark_payload payload_bytes
  prefix ← encode_length (length body) (length token_bytes)
  if ltb maximum (length prefix + 1 + length token_bytes + length body)
      then err codec_error
      else ok (prefix ++ (code' ∷ (token_bytes ++ body)))

-- The extension bytes that a length nibble announces, and what it adds to them.
abbrev pub extension_size : ℕ → ℕ
extension_size nibble =
    if ltb nibble 13 then 0 else if nibble == 13 then 1 else if nibble == 14 then 2 else 4

abbrev pub length_base : ℕ → ℕ
length_base nibble = if nibble == 13 then 13 else if nibble == 14 then 269 else 65805

-- What `_decode_length` returns.
pub record LengthField : Type 0 where
  pub declared : ℕ
  pub token_length : ℕ
  pub prefix_size : ℕ

unfoldable pub decode_length : Bytes → Result LengthField
decode_length [] = err codec_error
decode_length (first ∷ rest) =
    let nibble = first / 16 in
    let token_length = first % 16 in
    let size = extension_size nibble in
    if ltb 8 token_length
    then err codec_error
    else if ltb nibble 13
    then ok (record { declared = nibble; token_length = token_length; prefix_size = 1 })
    else if ltb (length rest) size
    then err codec_error
    else ok (record {
      declared = length_base nibble + from_bytes (take size rest);
      token_length = token_length;
      prefix_size = 1 + size;
    })

-- `_frame_size_from_prefix`
unfoldable pub frame_size_from_prefix : Bytes → ℕ → Result (Option ℕ)
frame_size_from_prefix [] maximum = ok none
frame_size_from_prefix (first ∷ rest) maximum =
    let size = extension_size (first / 16) in
    if ltb 8 (first % 16) then err codec_error else if ltb (length rest) size then ok none else do
      f ← decode_length (first ∷ take size rest)
      let frame_size = 1 + size + 1 + first % 16 + f.declared
      if ltb maximum frame_size then err codec_error else ok (some frame_size)

-- The message behind a length field of `prefix_size` bytes: where there is no byte of a code, `wire[code_offset]` raises,
-- after the empty options behind it.
unfoldable pub read_message : Bytes → LengthField → Result CoapTcpMessage
read_message [] f = err index_error
read_message (code ∷ rest) f = do
  let body = drop f.token_length rest
  (options, payload) ← decode_options (length body) 0 body
  ok (record {
    code = code;
    token = take f.token_length rest;
    options = options;
    payload = payload;
  })

unfoldable pub parse_coap_tcp_message : Bytes → ℕ → Result CoapTcpMessage
unfolding validate_max_message_size validate_int coerce_bytes
parse_coap_tcp_message bytes max_message_size = do
  maximum ← validate_max_message_size max_message_size
  wire ← coerce_bytes bytes maximum
  f ← decode_length wire
  let expected_size = f.prefix_size + 1 + f.token_length + f.declared
  if ltb maximum expected_size
      then err codec_error
      else if ltb (length wire) expected_size
      then err codec_error
      else if ltb expected_size (length wire)
      then err codec_error
      else read_message (drop f.prefix_size wire) f
