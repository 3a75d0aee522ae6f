-- ===== src/Coap/Options/Order.antt =====
-- Sorting options by number: ascending, and stable for each number.
use smart_things_local.Prelude.{
  ℕ, ◌≤◌, ◌≡◌, refl, ◌∙◌, List, [], ◌∷◌, arith, leb, All, Bool-cases, inl, inr,
}
use smart_things_local.Coap.Options.{CoapOption, insert_option, sort_options, option_values}

-- Numbers never fall, starting from `prev`.
abbrev pub Ascending : ℕ → List CoapOption → Type 0
Ascending prev [] = Unit
Ascending prev (o ∷ os) = (prev ≤ o.0) × Ascending o.0 os

insert_option-Ascending :
    (prev : ℕ) (o : CoapOption) (os : List CoapOption)
    → prev ≤ o.0
    → Ascending prev os
    → Ascending prev (insert_option o os)
unfolding insert_option
insert_option-Ascending prev o [] h a = (h, tt)
insert_option-Ascending prev o (p ∷ ps) h a = elim (Bool-cases (leb o.0 p.0)) [
  | inl le ↦ rw le (h, (ground arith, a.1))
  | inr gt ↦ rw gt (a.0, insert_option-Ascending p.0 o ps (ground arith) a.1)
]

pub sort_options-Ascending : (os : List CoapOption) → Ascending 0 (sort_options os)
unfolding sort_options
sort_options-Ascending [] = tt
sort_options-Ascending (o ∷ os) =
    insert_option-Ascending 0 o (sort_options os) (omega arith) (sort_options-Ascending os)

pub sort_options_sorted :
    (prev : ℕ) (os : List CoapOption) → Ascending prev os → sort_options os ≡ os
unfolding sort_options
sort_options_sorted prev [] a = refl
sort_options_sorted prev (o ∷ []) a = refl
sort_options_sorted prev (o ∷ p ∷ ps) a = ground (arith, sort_options_sorted o.0 (p ∷ ps) a.1)

-- The values of one number keep their order.
option_values-insert_option :
    (o : CoapOption) (os : List CoapOption) (k : ℕ)
    → option_values (insert_option o os) k ≡ option_values (o ∷ os) k
unfolding insert_option option_values
option_values-insert_option o [] k = refl
option_values-insert_option o (p ∷ ps) k = ground (arith, option_values-insert_option o ps k)

pub option_values-sort_options :
    (os : List CoapOption) (k : ℕ) → option_values (sort_options os) k ≡ option_values os k
unfolding sort_options option_values
option_values-sort_options [] k = refl
option_values-sort_options (o ∷ os) k =
    option_values-insert_option o (sort_options os) k ∙ rw (option_values-sort_options os k)

module _ {ℓ} (P : CoapOption → Type ℓ) where
  insert_option-All :
      (o : CoapOption) (os : List CoapOption) → P o → All P os → All P (insert_option o os)
  unfolding insert_option
  insert_option-All o [] h k = (h, tt)
  insert_option-All o (p ∷ ps) h k = elim (Bool-cases (leb o.0 p.0)) [
    | inl le ↦ rw le (h, k)
    | inr gt ↦ rw gt (k.0, insert_option-All o ps h k.1)
  ]

  pub sort_options-All : (os : List CoapOption) → All P os → All P (sort_options os)
  unfolding sort_options
  sort_options-All [] h = tt
  sort_options-All (o ∷ os) h = insert_option-All o (sort_options os) h.0 (sort_options-All os h.1)
