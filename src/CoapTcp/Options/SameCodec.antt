-- ===== src/CoapTcp/Options/SameCodec.antt =====
-- The option codec of coap_tcp.py is that of coap.py, with its own error and a bound on the number.
use smart_things_local.Prelude.{
  Bool, not, ◌&&◌, ℕ, zero, suc, ◌-◌, ◌/◌, ◌%◌, ◌≤◌, ◌<◌, ◌≡◌, refl, ◌∙◌, true, false, inl, inr,
  List, [], ◌∷◌, arith, length, Bool-cases, ◌==◌, ltb, if◌then◌else◌,
}
use smart_things_local.Prelude.Bytes.{Bytes, IsBytes}
use smart_things_local.Errors.{Result, ok, err, codec_error, ◌>>=◌}
use smart_things_local.Coap.Options.{
  CoapOption, vlen, encode_from, read_extended, read_option, read_options, read_payload,
}
use smart_things_local.Coap.Options.Decode.{read_option-Reads, IsBytes-middle}
use smart_things_local.Coap.Options.Failures.{read_option-Consumes}
use smart_things_local.CoapTcp.Options.{
  encode_extended, encode_options_from, decode_extended, decode_option, decode_options,
  decode_payload, coap_max_option_number,
}

-- `ok` is kept and every error is one of the codec.
abbrev pub recode {ℓ} : {A : Type ℓ} → Result A → Result A
recode (ok a) = ok a
recode (err e) = err codec_error

encode_extended-vlen : (v : ℕ) → encode_extended v ≡ recode (vlen v)
unfolding encode_extended vlen
encode_extended-vlen v = ground arith

decode_extended-read_extended :
    (nibble : ℕ) (bs : Bytes)
    → nibble < 16
    → decode_extended bs nibble ≡ recode (read_extended nibble bs)
unfolding decode_extended read_extended
decode_extended-read_extended nibble [] h = ground arith
decode_extended-read_extended nibble (a ∷ []) h = ground arith
decode_extended-read_extended nibble (a ∷ b ∷ bs) h = ground arith

recode-bind {ℓ κ} :
    {A : Type ℓ} {B : Type κ} (r : Result A) (f g : A → Result B)
    → ((a : A) → g a ≡ recode (f a))
    → (recode r >>= g) ≡ recode (r >>= f)
recode-bind (ok a) f g h = h a
recode-bind (err e) f g h = refl

-- Options are encoded as in coap.py, or refused with the codec's error.
pub encode_options_from-encode_from :
    (previous : ℕ) (os : List CoapOption)
    → encode_options_from previous os ≡ recode (encode_from previous os)
unfolding encode_options_from encode_from
encode_options_from-encode_from previous [] = refl
encode_options_from-encode_from previous ((n, v) ∷ os) =
    rw
      (
        encode_extended-vlen (n - previous),
        encode_extended-vlen (length v),
        encode_options_from-encode_from n os,
      )
      (recode-bind (vlen (n - previous)) _ _ (λ x.
        recode-bind (vlen (length v)) _ _ (λ y. recode-bind (encode_from n os) _ _ (λ rest. refl))))

-- A number beyond 65535 is refused.
abbrev limited : Result (CoapOption × Bytes) → Result (CoapOption × Bytes)
limited (ok r) = if ltb coap_max_option_number r.0.0 then err codec_error else ok r
limited (err e) = err codec_error

abbrev pub in_range : List CoapOption → Bool
in_range [] = true
in_range (o ∷ os) = not (ltb coap_max_option_number o.0) && in_range os

abbrev pub bounded : Result (List CoapOption × Bytes) → Result (List CoapOption × Bytes)
bounded (ok r) = if in_range r.0 then ok r else err codec_error
bounded (err e) = err codec_error

limited-bind {ℓ} :
    {A : Type ℓ} (r : Result A) (f g : A → Result (CoapOption × Bytes))
    → ((a : A) → g a ≡ limited (f a))
    → (recode r >>= g) ≡ limited (r >>= f)
limited-bind (ok a) f g h = h a
limited-bind (err e) f g h = refl

decode_option-read_option :
    (previous first : ℕ) (bs : Bytes)
    → first < 256
    → decode_option previous first bs ≡ limited (read_option previous first bs)
unfolding decode_option read_option
decode_option-read_option previous first bs h =
    rw (decode_extended-read_extended (first / 16) bs (omega arith)) (
      limited-bind (read_extended (first / 16) bs) _ _ (λ x.
        rw (decode_extended-read_extended (first % 16) x.1 (omega arith))
          (limited-bind (read_extended (first % 16) x.1) _ _ (λ y. ground arith))))

abbrev cons : CoapOption → Result (List CoapOption × Bytes) → Result (List CoapOption × Bytes)
cons o r = do (os, payload) ← r; ok (o ∷ os, payload)

-- The rest of the options, after one in range.
bounded-cons :
    (o : CoapOption) (r : Result (List CoapOption × Bytes))
    → ltb coap_max_option_number o.0 ≡ false
    → cons o (bounded (recode r)) ≡ bounded (recode (cons o r))
bounded-cons o (ok r) h = ground arith
bounded-cons o (err e) h = refl

bounded-out_of_range :
    (o : CoapOption) (r : Result (List CoapOption × Bytes))
    → ltb coap_max_option_number o.0 ≡ true
    → err codec_error ≡ bounded (recode (cons o r))
bounded-out_of_range o (ok r) h = ground arith
bounded-out_of_range o (err e) h = refl

bounded-payload : (bs : Bytes) → decode_payload bs ≡ bounded (recode (read_payload bs))
unfolding decode_payload read_payload
bounded-payload [] = refl
bounded-payload (b ∷ bs) = refl

module _ (fuel previous b : ℕ) (bs : Bytes) (m : (b == 0xff) ≡ false) where
  decode_options_step :
      decode_options (suc fuel) previous (b ∷ bs)
      ≡ (decode_option previous b bs >>= λ r. cons r.0 (decode_options fuel r.0.0 r.1))
  unfolding decode_options
  decode_options_step = rw m refl

  read_options_step :
      read_options (suc fuel) previous (b ∷ bs)
      ≡ (read_option previous b bs >>= λ r. cons r.0 (read_options fuel r.0.0 r.1))
  unfolding read_options
  read_options_step = rw m refl

-- After one option: the same from there on, if the rest is the same.
after_option :
    (r : Result (CoapOption × Bytes)) (f g : CoapOption × Bytes → Result (List CoapOption × Bytes))
    → ((a : CoapOption × Bytes) → r ≡ ok a → g a ≡ bounded (recode (f a)))
    → (limited r >>= λ a. cons a.0 (g a)) ≡ bounded (recode (r >>= λ a. cons a.0 (f a)))
after_option (err e) f g h = refl
after_option (ok a) f g h = elim (Bool-cases (ltb coap_max_option_number a.0.0)) [
  | inl big ↦ rw big (bounded-out_of_range a.0 (f a) big)
  | inr small ↦ rw (small, h a refl) (bounded-cons a.0 (f a) small)
]

step :
    (fuel previous b : ℕ) (bs : Bytes)
    → IsBytes (b ∷ bs)
    → ((a : CoapOption × Bytes)
        → read_option previous b bs ≡ ok a
        → decode_options fuel a.0.0 a.1 ≡ bounded (recode (read_options fuel a.0.0 a.1)))
    → decode_options (suc fuel) previous (b ∷ bs)
      ≡ bounded (recode (read_options (suc fuel) previous (b ∷ bs)))
step fuel previous b bs h later = elim (Bool-cases (b == 0xff)) [
  | inl m ↦ unfold decode_options read_options in rw m (bounded-payload bs)
  | inr m ↦
      decode_options_step fuel previous b bs m
      ∙ rw (decode_option-read_option previous b bs h.0, read_options_step fuel previous b bs m)
          (after_option (read_option previous b bs) (λ a. read_options fuel a.0.0 a.1)
            (λ a. decode_options fuel a.0.0 a.1) later)
]

rest_of :
    (previous b : ℕ) (bs : Bytes) (a : CoapOption × Bytes)
    → b < 256
    → IsBytes bs
    → read_option previous b bs ≡ ok a
    → (length a.1 ≤ length bs) × IsBytes a.1
rest_of previous b bs a hb h e =
    let r = read_option-Reads previous b bs a.0 a.1 hb h e in
    (
      rw e at (read_option-Consumes previous b bs),
      (IsBytes-middle r.dx r.lx a.0.1 a.1 (rw r.whole at h)).1,
    )

-- With fuel for each byte, the options of a byte string are decoded as in coap.py, or refused
-- with the codec's error: where coap.py refuses them, and where a number is beyond 65535.
pub decode_options-read_options :
    (fuel previous : ℕ) (bs : Bytes)
    → length bs ≤ fuel
    → IsBytes bs
    → decode_options fuel previous bs ≡ bounded (recode (read_options fuel previous bs))
unfolding decode_options read_options
decode_options-read_options fuel previous [] len h = refl
decode_options-read_options zero previous (b ∷ bs) len h = absurd (omega arith)
decode_options-read_options (suc fuel) previous (b ∷ bs) len h = step fuel previous b bs h (λ a e.
    let (shorter, bytes) = rest_of previous b bs a h.0 h.1 e in
    decode_options-read_options fuel a.0.0 a.1 (omega arith) bytes)
