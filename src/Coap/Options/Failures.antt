-- ===== src/Coap/Options/Failures.antt =====
-- The option loop of `parse_coap` ends within the length of its input, and its only failure is
-- `MalformedMessageError`.
use smart_things_local.Prelude.{
  ℕ, zero, suc, ◌+◌, ◌/◌, ◌%◌, ◌≤◌, ◌≡◌, refl, inl, inr, List, [], ◌∷◌, arith, length, take, drop,
  length-drop, ltb, ◌==◌, if◌then◌else◌, Bool-cases,
}
use smart_things_local.Prelude.Bytes.{Bytes}
use smart_things_local.Errors.{Error, Result, ok, err, malformed_message, ◌>>=◌}
use smart_things_local.Coap.Options.{
  CoapOption, read_extended, read_option, read_payload, read_options,
}

-- A reader either fails with `MalformedMessageError` or leaves no more than it was given.
abbrev pub Consumes {ℓ} : {A : Type ℓ} → ℕ → Result (A × Bytes) → Type 0
Consumes n (ok r) = length r.1 ≤ n
Consumes n (err e) = e ≡ malformed_message

read_extended-Consumes : (n : ℕ) (bs : Bytes) → Consumes (length bs) (read_extended n bs)
unfolding read_extended
read_extended-Consumes n [] = ground arith
read_extended-Consumes n (a ∷ []) = ground arith
read_extended-Consumes n (a ∷ b ∷ bs) = ground arith

Consumes-bind {ℓ κ} :
    {A : Type ℓ} {B : Type κ} (n : ℕ) (m : Result (A × Bytes)) (f : A × Bytes → Result (B × Bytes))
    → Consumes n m
    → ((a : A) (bs : Bytes) → length bs ≤ n → Consumes n (f (a, bs)))
    → Consumes n (m >>= f)
Consumes-bind n (ok r) f h k = k r.0 r.1 h
Consumes-bind n (err e) f h k = h

Consumes-le {ℓ} :
    {A : Type ℓ} (n m : ℕ) (r : Result (A × Bytes)) → m ≤ n → Consumes m r → Consumes n r
Consumes-le n m (ok r) le h = omega arith
Consumes-le n m (err e) le h = h

read_value-Consumes :
    (number len n : ℕ) (body : Bytes)
    → length body ≤ n
    → Consumes {A = CoapOption} n (
        if ltb (length body) len
        then err malformed_message
        else ok ((number, take len body), drop len body))
read_value-Consumes number len n body h = elim (Bool-cases (ltb (length body) len)) [
  | inl short ↦ rw short refl
  | inr fits ↦ rw fits (omega (arith, length-drop len body))
]

pub read_option-Consumes : (prev b : ℕ) (bs : Bytes) → Consumes (length bs) (read_option prev b bs)
unfolding read_option
read_option-Consumes prev b bs =
    Consumes-bind (length bs) (read_extended (b / 16) bs) _ (read_extended-Consumes (b / 16) bs)
      (λ delta mid le.
        Consumes-bind (length bs) (read_extended (b % 16) mid) _
          (Consumes-le (length bs) (length mid) (read_extended (b % 16) mid) le
            (read_extended-Consumes (b % 16) mid))
          (λ len body le'. read_value-Consumes (prev + delta) len (length bs) body le'))

-- With fuel for each byte the loop fails with `MalformedMessageError` alone.
abbrev Fails {ℓ} : {A : Type ℓ} → Result A → Type 0
Fails (ok r) = Unit
Fails (err e) = e ≡ malformed_message

Fails-bind {ℓ κ} :
    {A : Type ℓ} {B : Type κ} (n : ℕ) (m : Result (A × Bytes)) (f : A × Bytes → Result B)
    → Consumes n m
    → ((a : A) (bs : Bytes) → length bs ≤ n → Fails (f (a, bs)))
    → Fails (m >>= f)
Fails-bind n (ok r) f h k = k r.0 r.1 h
Fails-bind n (err e) f h k = h

Fails-cons :
    (o : CoapOption) (r : Result (List CoapOption × Bytes))
    → Fails r
    → Fails {A = List CoapOption × Bytes} (do (os, payload) ← r; ok (o ∷ os, payload))
Fails-cons o (ok r) h = tt
Fails-cons o (err e) h = h

read_payload-Fails : (bs : Bytes) → Fails (read_payload bs)
unfolding read_payload
read_payload-Fails [] = refl
read_payload-Fails (b ∷ bs) = tt

read_options-Fails :
    (fuel prev : ℕ) (bs : Bytes) → length bs ≤ fuel → Fails (read_options fuel prev bs)
unfolding read_options
read_options-Fails fuel prev [] h = tt
read_options-Fails zero prev (b ∷ bs) h = absurd (omega arith)
read_options-Fails (suc fuel) prev (b ∷ bs) h = elim (Bool-cases (b == 0xff)) [
  | inl m ↦ rw m (read_payload-Fails bs)
  | inr m ↦ rw m (
      Fails-bind (length bs) (read_option prev b bs) _ (read_option-Consumes prev b bs)
        (λ o after le.
          Fails-cons o (read_options fuel o.0 after)
            (read_options-Fails fuel o.0 after (omega arith))))
]

pub read_options_failure :
    (fuel prev : ℕ) (bs : Bytes) (e : Error)
    → length bs ≤ fuel
    → read_options fuel prev bs ≡ err e
    → e ≡ malformed_message
read_options_failure fuel prev bs e h eq = rw eq at (read_options-Fails fuel prev bs h)
