-- ===== src/Coap/Wire/Canonical.antt =====
-- A datagram that `parse_coap_message` accepts is the one that `build_coap` makes of the message.
use smart_things_local.Prelude.{
  ℕ, ◌+◌, ◌*◌, ◌/◌, ◌%◌, ◌≤◌, ◌<◌, bit_or, bit_or_shift, ◌≡◌, sym, ap, ◌∙◌, [], ◌∷◌, ◌++◌, arith,
  length, take, drop, All, length-take, take-append-drop, append_assoc, inl, inr, Bool-cases,
  length-drop, ltb, ◌==◌, ==_iff, ◌||◌, All-take, All-drop,
}
use smart_things_local.Prelude.Bytes.{Bytes, IsByte, IsBytes}
use smart_things_local.Errors.{Error, ok, err, malformed_message, >>=-eq-ok}
use smart_things_local.Coap.Options.{encode_options, read_options, mark_payload}
use smart_things_local.Coap.Options.Order.{Ascending, sort_options_sorted}
use smart_things_local.Coap.Options.Decode.{Decoded, HasBytes, read_options-Decoded}
use smart_things_local.Coap.Options.Failures.{read_options_failure}
use smart_things_local.Coap.Wire.{CoapMessage, bytes_of, build_coap, parse_coap_message, read_body}
use smart_things_local.Coap.Wire.RoundTrip.{build, bytes_of-IsBytes}

-- The steps of an accepted datagram after its first four bytes.
record Body (b₀ code m₁ m₀ : ℕ) (rest : Bytes) (m : CoapMessage) : Type 0 where
  tkl_small : b₀ % 16 ≤ 8
  tkl_fits : b₀ % 16 ≤ length rest
  mtype_is : m.mtype ≡ b₀ / 16 % 4
  code_is : m.code ≡ code
  mid_is : m.mid ≡ m₁ * 256 + m₀
  token_is : m.token ≡ take (b₀ % 16) rest
  reads : read_options (length rest) 0 (drop (b₀ % 16) rest) ≡ ok (m.options, m.payload)

read_body-Body :
    (b₀ code m₁ m₀ : ℕ) (rest : Bytes) (m : CoapMessage)
    → read_body b₀ code m₁ m₀ rest ≡ ok m
    → Body b₀ code m₁ m₀ rest m
unfolding read_body
read_body-Body b₀ code m₁ m₀ rest m h =
    elim (Bool-cases (ltb 8 (b₀ % 16) || ltb (length rest) (b₀ % 16))) [
      | inl bad ↦ absurd (ground arith)
      | inr good ↦
          let ((options, payload), e, h₁) =
            >>=-eq-ok (read_options (length rest) 0 (drop (b₀ % 16) rest)) _ (rw good at h) in
          record {
            tkl_small = ground arith;
            tkl_fits = ground arith;
            mtype_is = ground arith;
            code_is = ground arith;
            mid_is = ground arith;
            token_is = ground arith;
            reads = ground arith;
          }
    ]

header_again : (b : ℕ) → b / 64 ≡ 1 → bit_or (bit_or (1 * 64) (b / 16 % 4 * 16)) (b % 16) ≡ b
header_again b h =
    let e : bit_or (1 * 64) (b / 16 % 4 * 16) ≡ (4 + b / 16 % 4) * 16 =
      bit_or_shift 6 1 (b / 16 % 4 * 16) (omega arith) ∙ omega arith in
    rw e (bit_or_shift 4 (4 + b / 16 % 4) (b % 16) (omega arith) ∙ omega arith)

-- The ranges of a parsed message.
pub record IsParsed (m : CoapMessage) : Type 0 where
  pub mtype_range : m.mtype < 4
  pub code_range : m.code < 256
  pub mid_range : m.mid < 65536
  pub token_length : length m.token ≤ 8
  pub token_bytes : IsBytes m.token
  pub ascending : Ascending 0 m.options
  pub values : All HasBytes m.options
  pub payload_bytes : IsBytes m.payload

module _ (b₀ code m₁ m₀ : ℕ) (rest : Bytes) (m : CoapMessage) (version : b₀ / 64 ≡ 1)
    (bytes : IsBytes (b₀ ∷ code ∷ m₁ ∷ m₀ ∷ rest)) (s : Body b₀ code m₁ m₀ rest m) where
  decoded : Decoded 0 (drop (b₀ % 16) rest) m.options m.payload
  decoded =
      read_options-Decoded (length rest) 0 (drop (b₀ % 16) rest) m.options m.payload
        (All-drop IsByte (b₀ % 16) rest bytes.1.1.1.1) s.reads

  length-token : length m.token ≡ b₀ % 16
  length-token = omega (arith, ap length s.token_is, length-take (b₀ % 16) rest, s.tkl_fits)

  Body-IsParsed : IsParsed m
  Body-IsParsed = record {
    mtype_range = omega (arith, s.mtype_is);
    code_range = rw (s.code_is) bytes.1.0;
    mid_range = omega (arith, s.mid_is, bytes.1.1.0, bytes.1.1.1.0);
    token_length = omega (arith, length-token, s.tkl_small);
    token_bytes = rw (s.token_is) (All-take IsByte (b₀ % 16) rest bytes.1.1.1.1);
    ascending = decoded.ascending;
    values = decoded.values;
    payload_bytes = decoded.payload_bytes;
  }

  same_rest : m.token ++ (decoded.wire ++ mark_payload m.payload) ≡ rest
  same_rest =
      ap (λ (x : Bytes). x ++ (decoded.wire ++ mark_payload m.payload)) s.token_is
      ∙ ap (λ (x : Bytes). take (b₀ % 16) rest ++ x) (sym decoded.whole)
      ∙ take-append-drop (b₀ % 16) rest

  same_header :
      bytes_of (
        bit_or (bit_or (1 * 64) (m.mtype * 16)) (length m.token)
        ∷ m.code
        ∷ (m.mid / 256 % 256)
        ∷ (m.mid % 256)
        ∷ [])
      ≡ ok (b₀ ∷ code ∷ m₁ ∷ m₀ ∷ [])
  same_header =
      let hi : m.mid / 256 % 256 ≡ m₁ = omega (arith, s.mid_is, bytes.1.1.0, bytes.1.1.1.0) in
      let lo : m.mid % 256 ≡ m₀ = omega (arith, s.mid_is, bytes.1.1.0, bytes.1.1.1.0) in
      rw (s.mtype_is, length-token, header_again b₀ version, s.code_is, hi, lo)
        (bytes_of-IsBytes (b₀ ∷ code ∷ m₁ ∷ m₀ ∷ [])
          (bytes.0, (bytes.1.0, (bytes.1.1.0, (bytes.1.1.1.0, tt)))))

  same_options : encode_options m.options ≡ ok decoded.wire
  unfolding encode_options
  same_options = rw (sort_options_sorted 0 m.options decoded.ascending) decoded.encodes

  build-again : build m ≡ ok (b₀ ∷ code ∷ m₁ ∷ m₀ ∷ rest)
  unfolding build_coap
  build-again =
      rw (same_header, same_options)
        (ap (λ (x : Bytes). ok (b₀ ∷ code ∷ m₁ ∷ m₀ ∷ x))
          (append_assoc m.token decoded.wire (mark_payload m.payload) ∙ same_rest))

-- Every datagram of bytes that `parse_coap_message` accepts is exactly what `build_coap` makes of
-- the parsed message, so no two datagrams parse to one message; and the parsed fields are in
-- range, with the options in ascending order.
pub build-parse_coap_message :
    (wire : Bytes) (m : CoapMessage)
    → IsBytes wire
    → parse_coap_message wire ≡ ok m
    → (build m ≡ ok wire) × IsParsed m
unfolding parse_coap_message
build-parse_coap_message (b₀ ∷ code ∷ m₁ ∷ m₀ ∷ rest) m bytes h = elim (Bool-cases (b₀ / 64 == 1)) [
  | inl v ↦
      let s = read_body-Body b₀ code m₁ m₀ rest m (rw v at h) in
      let version = (==_iff (b₀ / 64) 1).0 v in
      (
        build-again b₀ code m₁ m₀ rest m version bytes s,
        Body-IsParsed b₀ code m₁ m₀ rest m version bytes s,
      )
  | inr v ↦ absurd (ground arith)
]
build-parse_coap_message _ m bytes h = absurd (ground arith)

read_body_failure :
    (b₀ code m₁ m₀ : ℕ) (rest : Bytes) (e : Error)
    → read_body b₀ code m₁ m₀ rest ≡ err e
    → e ≡ malformed_message
unfolding read_body
read_body_failure b₀ code m₁ m₀ rest e h = ground (
  arith,
  read_options_failure (length rest) 0 (drop (b₀ % 16) rest) e
      (omega (arith, length-drop (b₀ % 16) rest)),
)

-- Whatever the input, the only failure of `parse_coap_message` is `MalformedMessageError`.
pub parse_coap_message_failure :
    (wire : Bytes) (e : Error) → parse_coap_message wire ≡ err e → e ≡ malformed_message
unfolding parse_coap_message
parse_coap_message_failure (b₀ ∷ code ∷ m₁ ∷ m₀ ∷ rest) e h =
    ground (arith, read_body_failure b₀ code m₁ m₀ rest e)
parse_coap_message_failure _ e h = ground arith
