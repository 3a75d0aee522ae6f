-- ===== src/CoapTcp/Frame/Failures.antt =====
-- Malformed wires: `CoapTcpCodecError` and nothing else.
use smart_things_local.Prelude.{
  ℕ, ◌<◌, ◌≡◌, ◌∙◌, sym, List, [], ◌∷◌, arith, length, drop, inl, inr, All-drop, length-drop,
}
use smart_things_local.Prelude.Bytes.{Bytes, IsByte, IsBytes}
use smart_things_local.Errors.{Result, Error, ok, err, codec_error, Result-cases}
use smart_things_local.Coap.Options.{CoapOption, read_options}
use smart_things_local.CoapTcp.Options.{decode_options}
use smart_things_local.CoapTcp.Options.SameCodec.{recode, bounded, decode_options-read_options}
use smart_things_local.CoapTcp.Frame.{
  LengthField, validate_max_message_size, validate_int, coerce_bytes, decode_length, read_message,
  parse_coap_tcp_message,
}

bounded-recode_failure :
    (r : Result (List CoapOption × Bytes)) (e : Error)
    → bounded (recode r) ≡ err e
    → e ≡ codec_error
bounded-recode_failure (ok r) e h = ground arith
bounded-recode_failure (err x) e h = ground arith

decode_options_failure :
    (bs : Bytes) (e : Error)
    → IsBytes bs
    → decode_options (length bs) 0 bs ≡ err e
    → e ≡ codec_error
decode_options_failure bs e bytes h =
    bounded-recode_failure (read_options (length bs) 0 bs) e
      (sym (decode_options-read_options (length bs) 0 bs (omega arith) bytes) ∙ h)

read_message_failure :
    (bs : Bytes) (f : LengthField) (e : Error)
    → IsBytes bs
    → 0 < length bs
    → read_message bs f ≡ err e
    → e ≡ codec_error
unfolding read_message
read_message_failure [] f e bytes some_bytes h = absurd (omega arith)
read_message_failure (code ∷ rest) f e bytes some_bytes h =
    let body = drop f.token_length rest in
    elim (Result-cases (decode_options (length body) 0 body)) [
      | inl (r, k) ↦ absurd (ground arith)
      | inr (x, k) ↦
          ground
            (arith, decode_options_failure body x (All-drop IsByte f.token_length rest bytes.1) k)
    ]

decode_length_failure : (bs : Bytes) (e : Error) → decode_length bs ≡ err e → e ≡ codec_error
unfolding decode_length
decode_length_failure [] e h = ground arith
decode_length_failure (b ∷ bs) e h = ground arith

-- Whatever bytes arrive, and whatever the limit, the only failure of `parse_coap_tcp_message` is
-- `CoapTcpCodecError`.
pub parse_coap_tcp_message_failure :
    (wire : Bytes) (maximum : ℕ) (e : Error)
    → IsBytes wire
    → parse_coap_tcp_message wire maximum ≡ err e
    → e ≡ codec_error
unfolding parse_coap_tcp_message validate_max_message_size validate_int coerce_bytes
parse_coap_tcp_message_failure wire maximum e bytes h = elim (Result-cases (decode_length wire)) [
  | inr (x, k) ↦ ground (arith, decode_length_failure wire x k)
  | inl (f, k) ↦ ground (
    arith,
    length-drop f.prefix_size wire,
    read_message_failure (drop f.prefix_size wire) f e (All-drop IsByte f.prefix_size wire bytes),
  )
]
