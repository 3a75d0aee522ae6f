-- ===== src/CoapTcp/Frame/Capacity.antt =====
-- Which messages `build_coap_tcp_message` can build.
use smart_things_local.Prelude.{
  ℕ, suc, ◌+◌, ◌-◌, ◌≤◌, ltb, if◌then◌else◌, ◌≡◌, refl, ap, ◌∙◌, List, [], ◌∷◌, ◌++◌, arith, length,
  All, length-append,
}
use smart_things_local.Prelude.Bytes.{Bytes}
use smart_things_local.Errors.{ok}
use smart_things_local.Coap.Options.{CoapOption, vlen, encode_from, sort_options, mark_payload}
use smart_things_local.Coap.Options.Order.{sort_options-Ascending, sort_options-All}
use smart_things_local.Coap.Options.Encode.{Encodable, encode_from-Written, encode_from_total}
use smart_things_local.CoapTcp.Options.{normalize_options, encode_options_from}
use smart_things_local.CoapTcp.Options.SameCodec.{recode, encode_options_from-encode_from}
use smart_things_local.CoapTcp.Frame.{
  CoapTcpMessage, encode_length, parse_coap_tcp_message, coap_tcp_max_message_size,
  coap_tcp_max_declared_length,
}
use smart_things_local.CoapTcp.Frame.Length.{encode_length_total}
use smart_things_local.CoapTcp.Frame.RoundTrip.{
  build_tcp, build_tcp-Accepted, Accepted, finish_build, InRange, HasBytes, Encodable-All,
  check_options-All, parse-build_tcp,
}

-- The extension bytes of an option's delta or length.
abbrev pub extension : ℕ → ℕ
extension v = if ltb v 13 then 0 else if ltb v 269 then 1 else 2

-- The bytes of options in the order of their numbers: a first byte, the extensions and the value of each.
abbrev pub options_size : ℕ → List CoapOption → ℕ
options_size previous [] = 0
options_size previous ((n, v) ∷ os) =
    1 + extension (n - previous) + extension (length v) + length v + options_size n os

-- A payload stands behind a marker.
abbrev pub payload_size : Bytes → ℕ
payload_size [] = 0
payload_size (b ∷ bs) = 1 + length (b ∷ bs)

abbrev pub length_size : ℕ → ℕ
length_size n = if ltb n 13 then 1 else if ltb n 269 then 2 else if ltb n 65805 then 3 else 5

abbrev pub content_size : CoapTcpMessage → ℕ
content_size m = options_size 0 (sort_options m.options) + payload_size m.payload

-- The length field, the code, the token, the options and the payload.
abbrev pub wire_size : CoapTcpMessage → ℕ
wire_size m = length_size (content_size m) + 1 + length m.token + content_size m

length-vlen : (v n : ℕ) (x : Bytes) → vlen v ≡ ok (n, x) → length x ≡ extension v
unfolding vlen
length-vlen v n x h = ground arith

length-encode_from :
    (os : List CoapOption) (previous : ℕ) (wire : Bytes)
    → encode_from previous os ≡ ok wire
    → length wire ≡ options_size previous os
unfolding encode_from
length-encode_from [] previous wire h = ground arith
length-encode_from ((n, v) ∷ os) previous wire h =
    let w = encode_from-Written previous n v os wire h in
    let size : length wire ≡ suc (length (w.dx ++ (w.lx ++ (v ++ w.rest)))) = ap length w.whole in
    omega (
      arith,
      size,
      length-append w.dx (w.lx ++ (v ++ w.rest)),
      length-append w.lx (v ++ w.rest),
      length-append v w.rest,
      length-vlen _ _ w.dx w.delta,
      length-vlen _ _ w.lx w.size,
      length-encode_from os n w.rest w.others,
    )

length-mark_payload : (payload : Bytes) → length (mark_payload payload) ≡ payload_size payload
length-mark_payload [] = refl
length-mark_payload (b ∷ bs) = omega arith

length-payload-le : (payload : Bytes) → length payload ≤ payload_size payload
length-payload-le [] = omega arith
length-payload-le (b ∷ bs) = omega arith

length-content :
    (m : CoapTcpMessage) (body : Bytes)
    → encode_from 0 (sort_options m.options) ≡ ok body
    → length (body ++ mark_payload m.payload) ≡ content_size m
length-content m body h = omega (
  arith,
  length-append body (mark_payload m.payload),
  length-mark_payload m.payload,
  length-encode_from (sort_options m.options) 0 body h,
)

length-encode_length :
    (n t : ℕ) (prefix : Bytes)
    → encode_length n t ≡ ok prefix
    → (length prefix ≡ length_size n) × (n ≤ coap_tcp_max_declared_length)
unfolding encode_length
length-encode_length n t prefix h = (ground arith, ground arith)

-- The ranges, and room for exactly the bytes of the message.
pub record Fits (m : CoapTcpMessage) (maximum : ℕ) : Type 0 where
  pub limit : maximum ≤ coap_tcp_max_message_size
  pub code_range : m.code ≤ 0xff
  pub token_length : length m.token ≤ 8
  pub options_range : All InRange m.options
  pub declarable : content_size m ≤ coap_tcp_max_declared_length
  pub room : wire_size m ≤ maximum

finish_build-eq-ok :
    (m : CoapTcpMessage) (maximum : ℕ) (body prefix : Bytes)
    → normalize_options m.options ≡ ok (sort_options m.options)
    → encode_options_from 0 (sort_options m.options) ≡ ok body
    → encode_length (length (body ++ mark_payload m.payload)) (length m.token) ≡ ok prefix
    → length prefix + 1 + length m.token + length (body ++ mark_payload m.payload) ≤ maximum
    → finish_build m maximum
      ≡ ok (prefix ++ (m.code ∷ (m.token ++ (body ++ mark_payload m.payload))))
finish_build-eq-ok m maximum body prefix n e l fits = rw (n, e, l) (ground arith)

normalize_options-All :
    (os : List CoapOption) → All InRange os → normalize_options os ≡ ok (sort_options os)
unfolding normalize_options
normalize_options-All os h = rw (check_options-All os h) refl

length_size-pos : (n : ℕ) → 1 ≤ length_size n
length_size-pos n = ground arith

Fits-Accepted : (m : CoapTcpMessage) (maximum : ℕ) → Fits m maximum → Accepted m maximum
Fits-Accepted m maximum f = (
  omega (arith, f.room, length_size-pos (content_size m)),
  f.limit,
  f.code_range,
  f.token_length,
  omega (arith, f.room, length-payload-le m.payload),
)

-- What is built for a message, and read back.
pub record Carried (m : CoapTcpMessage) (maximum : ℕ) : Type 0 where
  pub wire : Bytes
  pub built : build_tcp m maximum ≡ ok wire
  pub size : length wire ≡ wire_size m
  pub parsed :
      parse_coap_tcp_message wire maximum ≡ ok (record m { options = sort_options m.options })

pub Fits-Carried :
    (m : CoapTcpMessage) (maximum : ℕ) → HasBytes m → Fits m maximum → Carried m maximum
Fits-Carried m maximum bytes f =
    let os = sort_options m.options in
    let (body, encoded, _) =
      encode_from_total 0 os (sort_options-Ascending m.options)
        (sort_options-All Encodable m.options (Encodable-All m.options f.options_range bytes.0)) in
    let content = body ++ mark_payload m.payload in
    let size = length-content m body encoded in
    let (prefix, announced) =
      encode_length_total (length content) (length m.token) f.token_length
        (omega (arith, size, f.declarable)) in
    let exact : length prefix ≡ length_size (content_size m) =
      (length-encode_length _ (length m.token) prefix announced).0 ∙ ap length_size size in
    let wire = prefix ++ (m.code ∷ (m.token ++ content)) in
    let built : build_tcp m maximum ≡ ok wire =
      build_tcp-Accepted m maximum (Fits-Accepted m maximum f)
      ∙ finish_build-eq-ok m maximum body prefix (normalize_options-All m.options f.options_range)
          (encode_options_from-encode_from 0 os ∙ ap recode encoded) announced
          (omega (arith, exact, size, f.room)) in
    record {
      wire = wire;
      built = built;
      size = omega (
        arith,
        exact,
        size,
        length-append prefix (m.code ∷ (m.token ++ content)),
        length-append m.token content,
      );
      parsed = parse-build_tcp m maximum wire bytes built;
    }
