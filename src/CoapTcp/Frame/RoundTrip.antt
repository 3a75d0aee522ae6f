-- ===== src/CoapTcp/Frame/RoundTrip.antt =====
-- What `build_coap_tcp_message` returns, `parse_coap_tcp_message` reads back.
use smart_things_local.Prelude.{
  ℕ, ◌+◌, ◌≤◌, ◌≡◌, refl, sym, ap, ◌∙◌, true, List, [], ◌∷◌, ◌++◌, arith, ltb, if◌then◌else◌,
  length, drop, All, All-append, length-append, take-append_exact, drop-append_exact,
}
use smart_things_local.Prelude.Bytes.{Bytes, IsByte, IsBytes}
use smart_things_local.Errors.{Result, ok, err, codec_error, ◌>>=◌, >>=-eq-ok}
use smart_things_local.Coap.Options.{CoapOption, encode_from, sort_options, mark_payload}
use smart_things_local.Coap.Options.Order.{sort_options-Ascending, sort_options-All}
use smart_things_local.Coap.Options.Encode.{Encodable, read_options-encode_from, encode_from_total}
use smart_things_local.CoapTcp.Options.{
  check_options, normalize_options, encode_options_from, decode_options, coap_max_option_number,
  coap_max_option_value_length,
}
use smart_things_local.CoapTcp.Options.SameCodec.{
  recode, in_range, encode_options_from-encode_from, decode_options-read_options,
}
use smart_things_local.CoapTcp.Frame.{
  CoapTcpMessage, LengthField, validate_int, coerce_bytes, validate_max_message_size, encode_length,
  build_coap_tcp_message, decode_length, read_message, parse_coap_tcp_message,
  coap_tcp_max_message_size,
}
use smart_things_local.CoapTcp.Frame.Length.{Announces, encode_length-Announces}

-- The ranges that the builder checks of an option, and that its value is made of bytes.
abbrev pub InRange : CoapOption → Type 0
InRange o = (o.0 ≤ coap_max_option_number) × (length o.1 ≤ coap_max_option_value_length)

abbrev pub build_tcp : CoapTcpMessage → ℕ → Result Bytes
build_tcp m maximum = build_coap_tcp_message m.code m.token m.options m.payload maximum

check_options-eq-ok :
    (os checked : List CoapOption) → check_options os ≡ ok checked → (checked ≡ os) × All InRange os
unfolding check_options
check_options-eq-ok [] checked h = (cc, tt)
check_options-eq-ok ((n, v) ∷ os) checked h =
    let number : n ≤ coap_max_option_number = ground arith in
    let size : length v ≤ coap_max_option_value_length = ground arith in
    let h₀ : (check_options os >>= λ r. ok ((n, v) ∷ r)) ≡ ok checked = ground arith in
    let (rest, e, h₁) = >>=-eq-ok (check_options os) (λ r. ok ((n, v) ∷ r)) h₀ in
    let (same, all) = check_options-eq-ok os rest e in
    let whole : (n, v) ∷ rest ≡ checked = cc h₁ in
    (sym whole ∙ ap (◌∷◌ (n, v)) same, ((number, size), all))

pub check_options-All : (os : List CoapOption) → All InRange os → check_options os ≡ ok os
unfolding check_options
check_options-All [] h = refl
check_options-All ((n, v) ∷ os) h = ground (arith, check_options-All os h.1)

in_range-All : (os : List CoapOption) → All InRange os → in_range os ≡ true
in_range-All [] h = refl
in_range-All (o ∷ os) h = ground (arith, in_range-All os h.1)

recode-eq-ok {ℓ} : {A : Type ℓ} (r : Result A) {a : A} → recode r ≡ ok a → r ≡ ok a
recode-eq-ok (ok a) h = h
recode-eq-ok (err e) h = absurd (ground arith)

-- The arguments that the builder accepts.
abbrev pub Accepted : CoapTcpMessage → ℕ → Type 0
Accepted m maximum =
    (2 ≤ maximum)
    × (maximum ≤ coap_tcp_max_message_size)
    × (m.code ≤ 0xff)
    × (length m.token ≤ 8)
    × (length m.payload ≤ maximum)

-- What `build_coap_tcp_message` has checked and put together when it returns.
pub record Built (m : CoapTcpMessage) (maximum : ℕ) (wire : Bytes) : Type 0 where
  pub prefix : Bytes
  pub body : Bytes
  pub accepted : Accepted m maximum
  pub options_range : All InRange m.options
  pub encoded : encode_from 0 (sort_options m.options) ≡ ok body
  pub announced :
      encode_length (length (body ++ mark_payload m.payload)) (length m.token) ≡ ok prefix
  pub fits : length prefix + 1 + length m.token + length (body ++ mark_payload m.payload) ≤ maximum
  pub whole : wire ≡ prefix ++ (m.code ∷ (m.token ++ (body ++ mark_payload m.payload)))

normalize-eq-ok :
    (os : List CoapOption) {out : List CoapOption}
    → normalize_options os ≡ ok out
    → (out ≡ sort_options os) × All InRange os
unfolding normalize_options
normalize-eq-ok os h =
    let (checked, e, h₁) = >>=-eq-ok (check_options os) _ h in
    let (same, all) = check_options-eq-ok os checked e in
    let whole : sort_options checked ≡ _ = cc h₁ in (sym whole ∙ ap sort_options same, all)

-- What follows the checks of the arguments.
abbrev pub finish_build : CoapTcpMessage → ℕ → Result Bytes
finish_build m maximum = do
  normalized ← normalize_options m.options
  encoded ← encode_options_from 0 normalized
  let body = encoded ++ mark_payload m.payload
  prefix ← encode_length (length body) (length m.token)
  if ltb maximum (length prefix + 1 + length m.token + length body)
      then err codec_error
      else ok (prefix ++ (m.code ∷ (m.token ++ body)))

pub build_tcp-Accepted :
    (m : CoapTcpMessage) (maximum : ℕ)
    → Accepted m maximum
    → build_tcp m maximum ≡ finish_build m maximum
unfolding build_coap_tcp_message validate_max_message_size validate_int coerce_bytes
build_tcp-Accepted m maximum h = ground arith

build_tcp-eq-ok :
    (m : CoapTcpMessage) (maximum : ℕ) (wire : Bytes)
    → build_tcp m maximum ≡ ok wire
    → Accepted m maximum × (finish_build m maximum ≡ ok wire)
unfolding build_coap_tcp_message validate_max_message_size validate_int coerce_bytes
build_tcp-eq-ok m maximum wire h =
    let a : Accepted m maximum =
      (ground arith, ground arith, ground arith, ground arith, ground arith) in
    (a, sym (build_tcp-Accepted m maximum a) ∙ h)

finish_build-eq-ok :
    (m : CoapTcpMessage) (maximum : ℕ) (wire : Bytes)
    → Accepted m maximum
    → finish_build m maximum ≡ ok wire
    → Built m maximum wire
finish_build-eq-ok m maximum wire a h =
    let (os, e, h₁) = >>=-eq-ok (normalize_options m.options) _ h in
    let (same, all) = normalize-eq-ok m.options e in
    let (opts, e₁, h₂) = >>=-eq-ok (encode_options_from 0 os) _ h₁ in
    let (prefix, e₂, h₃) = >>=-eq-ok (encode_length _ (length m.token)) _ h₂ in
    record {
      prefix = prefix;
      body = opts;
      accepted = a;
      options_range = all;
      encoded =
          recode-eq-ok (encode_from 0 (sort_options m.options)) (
            sym (encode_options_from-encode_from 0 _) ∙ ap (encode_options_from 0) (sym same) ∙ e₁);
      announced = e₂;
      fits = ground arith;
      whole = ground arith;
    }

pub build_tcp-Built :
    (m : CoapTcpMessage) (maximum : ℕ) (wire : Bytes)
    → build_tcp m maximum ≡ ok wire
    → Built m maximum wire
build_tcp-Built m maximum wire h =
    let (a, h₁) = build_tcp-eq-ok m maximum wire h in finish_build-eq-ok m maximum wire a h₁

-- A wire as long as its length field says is one message.
parse-LengthField :
    (wire : Bytes) (maximum : ℕ) (f : LengthField)
    → 2 ≤ maximum
    → maximum ≤ coap_tcp_max_message_size
    → length wire ≤ maximum
    → decode_length wire ≡ ok f
    → length wire ≡ f.prefix_size + 1 + f.token_length + f.declared
    → parse_coap_tcp_message wire maximum ≡ read_message (drop f.prefix_size wire) f
unfolding parse_coap_tcp_message validate_max_message_size validate_int coerce_bytes
parse-LengthField wire maximum f lo hi fits e size = ground arith

read_message-append :
    (code n p : ℕ) (token body payload : Bytes) (os : List CoapOption)
    → decode_options (length body) 0 body ≡ ok (os, payload)
    → read_message
        (code ∷ (token ++ body))
        (record { declared = n; token_length = length token; prefix_size = p })
      ≡ ok (record { code = code; token = token; options = os; payload = payload })
unfolding read_message
read_message-append code n p token body payload os d =
    rw
      (
        drop-append_exact (length token) token body refl,
        take-append_exact (length token) token body refl,
        d,
      )
      refl

parse-Announces :
    (code maximum : ℕ) (prefix token body payload : Bytes) (os : List CoapOption)
    → Announces (length body) (length token) prefix
    → 2 ≤ maximum
    → maximum ≤ coap_tcp_max_message_size
    → length prefix + 1 + length token + length body ≤ maximum
    → decode_options (length body) 0 body ≡ ok (os, payload)
    → parse_coap_tcp_message (prefix ++ (code ∷ (token ++ body))) maximum
      ≡ ok (record { code = code; token = token; options = os; payload = payload })
parse-Announces code maximum prefix token body payload os a lo hi fits d =
    let size = length-append prefix (code ∷ (token ++ body)) in
    let size' = length-append token body in
    parse-LengthField (prefix ++ (code ∷ (token ++ body))) maximum _ lo hi
      (omega (arith, size, size')) (a.reads (code ∷ (token ++ body))) (omega (arith, size, size'))
    ∙ rw (drop-append_exact (length prefix) prefix (code ∷ (token ++ body)) refl)
        (read_message-append code _ _ token body payload os d)

-- Option values and payload are bytes.
abbrev pub HasBytes : CoapTcpMessage → Type 0
HasBytes m = All (λ (o : CoapOption). IsBytes o.1) m.options × IsBytes m.payload

mark_payload-IsBytes : (payload : Bytes) → IsBytes payload → IsBytes (mark_payload payload)
mark_payload-IsBytes [] h = tt
mark_payload-IsBytes (b ∷ bs) h = (omega arith, h)

pub Encodable-All :
    (os : List CoapOption)
    → All InRange os
    → All (λ (o : CoapOption). IsBytes o.1) os
    → All Encodable os
Encodable-All [] h k = tt
Encodable-All (o ∷ os) h k = ((omega arith, omega arith, k.0), Encodable-All os h.1 k.1)

body-IsBytes :
    (os : List CoapOption) (body : Bytes)
    → All Encodable os
    → encode_from 0 (sort_options os) ≡ ok body
    → IsBytes body
body-IsBytes os body h e =
    let (wire, e', bytes) =
      encode_from_total 0 (sort_options os) (sort_options-Ascending os)
        (sort_options-All Encodable os h) in
    let same : wire ≡ body = cc in rw (sym same) bytes

decode_options-encode_from :
    (os : List CoapOption) (body payload : Bytes)
    → All InRange os
    → IsBytes (body ++ mark_payload payload)
    → encode_from 0 (sort_options os) ≡ ok body
    → decode_options (length (body ++ mark_payload payload)) 0 (body ++ mark_payload payload)
      ≡ ok (sort_options os, payload)
decode_options-encode_from os body payload h bytes e =
    decode_options-read_options _ 0 (body ++ mark_payload payload) (omega arith) bytes
    ∙ rw
        (
          read_options-encode_from (sort_options os) (length (body ++ mark_payload payload)) 0 body
              payload (sort_options-Ascending os) e (omega arith),
          in_range-All (sort_options os) (sort_options-All InRange os h),
        )
        refl

-- What `build_coap_tcp_message` returns for a message of bytes, `parse_coap_tcp_message` reads back under any limit that
-- admits it.
pub parse-build_tcp :
    (m : CoapTcpMessage) (maximum : ℕ) (wire : Bytes)
    → HasBytes m
    → build_tcp m maximum ≡ ok wire
    → parse_coap_tcp_message wire maximum ≡ ok (record m { options = sort_options m.options })
parse-build_tcp m maximum wire h e =
    let b = build_tcp-Built m maximum wire e in
    let body = b.body ++ mark_payload m.payload in
    let bytes =
      body-IsBytes m.options b.body (Encodable-All m.options b.options_range h.0) b.encoded in
    rw b.whole (
      parse-Announces m.code maximum b.prefix m.token body m.payload (sort_options m.options)
        (encode_length-Announces _ _ b.prefix b.accepted.3 b.announced) b.accepted.0 b.accepted.1
        b.fits
        (decode_options-encode_from m.options b.body m.payload b.options_range
          (All-append IsByte b.body (mark_payload m.payload) bytes
            (mark_payload-IsBytes m.payload h.1))
          b.encoded))
