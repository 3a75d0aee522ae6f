-- ===== src/Coap/Wire.antt =====
-- Whole CoAP datagrams: `CoapMessage`, `parse_coap`, `parse_coap_message`, `build_coap` and
-- `build_empty_ack`.
pub mod RoundTrip
pub mod Canonical
use smart_things_local.Prelude.{
  ℕ, ◌+◌, ◌*◌, ◌/◌, ◌%◌, bit_or, List, [], ◌∷◌, ◌++◌, ◌||◌, ◌&&◌, not, ltb, ◌==◌, if◌then◌else◌,
  length, take, drop,
}
use smart_things_local.Prelude.Bytes.{Bytes}
use smart_things_local.Errors.{Result, ok, err, malformed_message, value_error, ◌>>=◌}
use smart_things_local.Coap.Options.{CoapOption, encode_options, read_options, mark_payload}

pub record CoapMessage : Type 0 where
  pub mtype : ℕ
  pub code : ℕ
  pub mid : ℕ
  pub token : Bytes
  pub options : List CoapOption
  pub payload : Bytes

-- `bytes([...])` refuses what is no byte.
unfoldable pub bytes_of : List ℕ → Result Bytes
bytes_of [] = ok []
bytes_of (b ∷ bs) = do rest ← bytes_of bs; if ltb b 256 then ok (b ∷ rest) else err value_error

unfoldable pub build_coap : ℕ → ℕ → ℕ → Bytes → List CoapOption → Bytes → Result Bytes
build_coap mtype code mid token options payload = do
  hdr ← bytes_of (
      bit_or (bit_or (1 * 64) (mtype * 16)) (length token)
      ∷ code
      ∷ (mid / 256 % 256)
      ∷ (mid % 256)
      ∷ [])
  body ← encode_options options
  ok ((hdr ++ (token ++ body)) ++ mark_payload payload)

unfoldable pub build_empty_ack : ℕ → Result Bytes
build_empty_ack mid = build_coap 2 0 mid [] [] []

-- After the four bytes of the header.
pub read_body : ℕ → ℕ → ℕ → ℕ → Bytes → Result CoapMessage
read_body b₀ code m₁ m₀ rest =
    let tkl = b₀ % 16 in
    if ltb 8 tkl || ltb (length rest) tkl then err malformed_message else do
      (options, payload) ← read_options (length rest) 0 (drop tkl rest)
      ok (record {
        mtype = b₀ / 16 % 4;
        code = code;
        mid = m₁ * 256 + m₀;
        token = take tkl rest;
        options = options;
        payload = payload;
      })

-- `parse_coap` with the result of `parse_coap_message`. The options cannot take more rounds than
-- there are bytes.
unfoldable pub parse_coap_message : Bytes → Result CoapMessage
unfolding read_body
parse_coap_message (b₀ ∷ code ∷ m₁ ∷ m₀ ∷ rest) =
    if not (b₀ / 64 == 1) then err malformed_message else read_body b₀ code m₁ m₀ rest
parse_coap_message _ = err malformed_message
