-- ===== src/Ocf/Dict/Equality.antt =====
-- What Python's equality of dicts says of them.
use smart_things_local.Prelude.{
  true, ◌≡◌, ◌↔◌, refl, sym, ◌∙◌, [], ◌∷◌, none, some, arith, Bool-cases, Option-cases, inl, inr,
}
use smart_things_local.Ocf.Dict.{Eq, Dict, get, holds, includes, same}
use smart_things_local.Ocf.Dict.Laws.{IsUnique}

module _ {K V : Type 0} ⦃key : Eq K⦄ ⦃val : Eq V⦄ where
  holds-get : (d : Dict K V) (k : K) (v : V) → holds d k v ≡ true → get d k ≡ some v
  unfolding holds
  holds-get d k v h = elim (Option-cases (get d k)) [
    | inl e ↦ absurd (ground arith)
    | inr (w, e) ↦
        let eq : val.equal w v ≡ true = ground arith in
        let same_value = (val.equal_iff w v).0 eq in ground arith
  ]

  get-holds : (d : Dict K V) (k : K) (v : V) → get d k ≡ some v → holds d k v ≡ true
  unfolding holds
  get-holds d k v h = let eq = (val.equal_iff v v).1 refl in ground arith

  -- Every pair of `e` is one of `d`.
  abbrev Below : Dict K V → Dict K V → Type 0
  Below e d = (k : K) (v : V) → get e k ≡ some v → get d k ≡ some v

  includes-Below : (d e : Dict K V) → includes d e ≡ true → Below e d
  unfolding includes get
  includes-Below d [] h j w g = absurd (ground arith)
  includes-Below d ((k, v) ∷ e) h j w g =
      let first : holds d k v ≡ true = ground arith in
      let rest : includes d e ≡ true = ground arith in
      elim (Bool-cases (key.equal j k)) [
        | inl found ↦
            let same_key = (key.equal_iff j k).0 found in
            let here : some v ≡ some w = rw found at g in rw same_key (holds-get d k v first) ∙ here
        | inr other ↦ includes-Below d e rest j w (rw other at g)
      ]

  Below-includes : (d e : Dict K V) → IsUnique e → Below e d → includes d e ≡ true
  unfolding includes get
  Below-includes d [] u h = refl
  Below-includes d ((k, v) ∷ e) u h =
      let first = get-holds d k v (h k v (rw ((key.equal_iff k k).1 refl) refl)) in
      let below : Below e d = λ j w g. elim (Bool-cases (key.equal j k)) [
        | inl found ↦
            let same_key = (key.equal_iff j k).0 found in
            let missing : get e j ≡ none = rw same_key u.0 in absurd (ground arith)
        | inr other ↦ h j w (rw other g)
      ] in
      rw (first, Below-includes d e u.1 below)

  both-Below : (d e : Dict K V) → Below e d → Below d e → (k : K) → get d k ≡ get e k
  both-Below d e h h' k = elim (Option-cases (get d k)) [
    | inr (v, g) ↦ g ∙ sym (h' k v g)
    | inl none_there ↦ elim (Option-cases (get e k)) [
      | inl none_here ↦ none_there ∙ sym none_here
      | inr (v, g) ↦ let c = h k v g in absurd (ground arith)
    ]
  ]

  -- Two dicts are equal exactly if every key reads the same in both.
  pub same_iff :
      (d e : Dict K V) → IsUnique d → IsUnique e → (same d e ≡ true) ↔ ((k : K) → get d k ≡ get e k)
  unfolding same
  same_iff d e u u' = (
    λ h k. both-Below d e (includes-Below d e (ground arith)) (includes-Below e d (ground arith)) k,
    λ h.
        rw
          (Below-includes d e u' (λ k v g. h k ∙ g), Below-includes e d u (λ k v g. sym (h k) ∙ g)),
  )
