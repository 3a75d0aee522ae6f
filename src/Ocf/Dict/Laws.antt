-- ===== src/Ocf/Dict/Laws.antt =====
-- Reading a dict after writing it.
use smart_things_local.Prelude.{
  true, false, ◌≡◌, refl, sym, ◌∙◌, [], ◌∷◌, Option, none, some, arith, if◌then◌else◌, Bool-cases,
  inl, inr,
}
use smart_things_local.Ocf.Dict.{remove, Eq, Dict, get, set, update}

abbrev pub or_else {ℓ} : {A : Type ℓ} → Option A → Option A → Option A
or_else none b = b
or_else (some a) b = some a

module _ {K : Type 0} ⦃key : Eq K⦄ where
  -- Two tests against one key.
  equal_same : (j k i : K) → key.equal k i ≡ true → key.equal j i ≡ key.equal j k
  equal_same j k i e = let same_key = (key.equal_iff k i).0 e in rw same_key refl

  equal_apart : (j k i : K) → key.equal k i ≡ false → key.equal j i ≡ true → key.equal j k ≡ false
  equal_apart j k i e h = elim (Bool-cases (key.equal j k)) [
    | inr other ↦ other
    | inl found ↦
        let j_is_i = (key.equal_iff j i).0 h in
        let j_is_k = (key.equal_iff j k).0 found in
        let clash = (key.equal_iff k i).1 (sym j_is_k ∙ j_is_i) in absurd (ground arith)
  ]

  pub equal_sym : (k i : K) → key.equal k i ≡ key.equal i k
  equal_sym k i = elim (Bool-cases (key.equal k i)) [
    | inl same_key ↦ same_key ∙ sym ((key.equal_iff i k).1 (sym ((key.equal_iff k i).0 same_key)))
    | inr other ↦ elim (Bool-cases (key.equal i k)) [
      | inl same_key ↦
          let c = (key.equal_iff k i).1 (sym ((key.equal_iff i k).0 same_key)) in
          absurd (ground arith)
      | inr other' ↦ other ∙ sym other'
    ]
  ]

  equal_to : (j k i : K) → key.equal j k ≡ true → key.equal k i ≡ key.equal j i
  equal_to j k i e = let same_key = (key.equal_iff j k).0 e in rw same_key refl

module _ {K V : Type 0} ⦃key : Eq K⦄ where
  -- No key stands twice.
  abbrev pub IsUnique : Dict K V → Type 0
  IsUnique [] = Unit
  IsUnique ((k, v) ∷ d) = (get d k ≡ none) × IsUnique d

  pub get-set :
      (d : Dict K V) (k : K) (v : V) (j : K)
      → get (set d k v) j ≡ (if key.equal j k then some v else get d j)
  unfolding get set
  get-set [] k v j = refl
  get-set ((i, w) ∷ d) k v j = elim (Bool-cases (key.equal k i)) [
    | inl e ↦ ground (arith, equal_same j k i e)
    | inr e ↦ ground (arith, get-set d k v j, equal_apart j k i e)
  ]

  pub set-IsUnique : (d : Dict K V) (k : K) (v : V) → IsUnique d → IsUnique (set d k v)
  unfolding set get
  set-IsUnique [] k v u = (refl, tt)
  set-IsUnique ((i, w) ∷ d) k v u = elim (Bool-cases (key.equal k i)) [
    | inl e ↦ rw e u
    | inr e ↦ rw e (ground (arith, get-set d k v i, equal_sym k i), set-IsUnique d k v u.1)
  ]

  pub update-IsUnique : (d e : Dict K V) → IsUnique d → IsUnique (update d e)
  unfolding update
  update-IsUnique d [] u = u
  update-IsUnique d ((k, v) ∷ e) u = update-IsUnique (set d k v) e (set-IsUnique d k v u)

  -- Of two dicts merged, the second's keys win.
  pub get-update :
      (d e : Dict K V) (j : K) → IsUnique e → get (update d e) j ≡ or_else (get e j) (get d j)
  unfolding update get
  get-update d [] j u = refl
  get-update d ((k, v) ∷ e) j u = elim (Bool-cases (key.equal j k)) [
    | inl found ↦
        let same_key = (key.equal_iff j k).0 found in
        let missing : get e j ≡ none = rw same_key u.0 in
        get-update (set d k v) e j u.1 ∙ ground (arith, missing, get-set d k v j)
    | inr other ↦ get-update (set d k v) e j u.1 ∙ ground (arith, get-set d k v j)
  ]

  pub get-remove :
      (d : Dict K V) (k j : K) → get (remove d k) j ≡ (if key.equal j k then none else get d j)
  unfolding get remove
  get-remove [] k j = ground arith
  get-remove ((i, w) ∷ d) k j = elim (Bool-cases (key.equal j k)) [
    | inl found ↦ ground (arith, get-remove d k j, equal_to j k i found)
    | inr apart ↦ elim (Bool-cases (key.equal k i)) [
      | inl gone ↦
          let same_key = (key.equal_iff k i).0 gone in
          let other : key.equal j i ≡ false = rw same_key at apart in
          ground (arith, get-remove d k j)
      | inr kept ↦ ground (arith, get-remove d k j)
    ]
  ]
