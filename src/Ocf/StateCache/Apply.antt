-- ===== src/Ocf/StateCache/Apply.antt =====
-- What `apply_rep` stores and reports.
use smart_things_local.Prelude.{
  ℕ, Bool, true, false, ◌≡◌, ◌↔◌, refl, [], ◌∷◌, Option, none, some, arith, if◌then◌else◌,
  Bool-cases, Option-cases, inl, inr,
}
use Prim.Native.String.{String}
use smart_things_local.Ocf.Dict.{Eq, Dict, get, set}
use smart_things_local.Ocf.Dict.Laws.{
  IsUnique, get-set, set-IsUnique, update-IsUnique, get-update, or_else,
}
use smart_things_local.Ocf.Dict.Equality.{same_iff}
use smart_things_local.Ocf.StateCache.{
  string_eq, href_eq, Href, same_href, same_href_iff, Rep, dict, StateCache, Hooks, resulting, held,
  differs, apply_dict, apply_rep,
}

-- Each dict has no key twice, nor has any representation, and the three dicts have the same keys.
pub record IsConsistent {Value State : Type 0} (c : StateCache Value State) : Type 0 where
  pub unique_links : IsUnique c.links
  pub unique_times : IsUnique c.last_updated
  pub unique_sources : IsUnique c.source
  pub unique_reps : (href : Href) (rep : Rep Value) → get c.links href ≡ some rep → IsUnique rep
  pub timed : (href : Href) → (get c.links href ≡ none) ↔ (get c.last_updated href ≡ none)
  pub sourced : (href : Href) → (get c.links href ≡ none) ↔ (get c.source href ≡ none)

module _ {Value : Type 0} where
  -- The fields that the cache holds after a representation.
  abbrev pub expected : Bool → Option (Rep Value) → Rep Value → String → Option Value
  expected merge prior rep k = if merge then or_else (get rep k) (get (held prior) k) else get rep k

  get-resulting :
      (merge : Bool) (prior : Option (Rep Value)) (rep : Rep Value) (k : String)
      → IsUnique rep
      → get (resulting merge prior rep) k ≡ expected merge prior rep k
  unfolding resulting get
  get-resulting true (some (p ∷ ps)) rep k u = get-update (p ∷ ps) rep k u
  get-resulting true (some []) rep k u = elim (Option-cases (get rep k)) [
    | inl e ↦ rw e refl
    | inr (v, e) ↦ rw e refl
  ]
  get-resulting true none rep k u = elim (Option-cases (get rep k)) [
    | inl e ↦ rw e refl
    | inr (v, e) ↦ rw e refl
  ]
  get-resulting false prior rep k u = refl

  resulting-IsUnique :
      (merge : Bool) (prior : Option (Rep Value)) (rep : Rep Value)
      → IsUnique rep
      → ((p : Rep Value) → prior ≡ some p → IsUnique p)
      → IsUnique (resulting merge prior rep)
  unfolding resulting
  resulting-IsUnique true (some (p ∷ ps)) rep u h = update-IsUnique (p ∷ ps) rep (h (p ∷ ps) refl)
  resulting-IsUnique true (some []) rep u h = u
  resulting-IsUnique true none rep u h = u
  resulting-IsUnique false prior rep u h = u

module _ {Value : Type 0} ⦃val : Eq Value⦄ where
  differs_iff :
      (prior : Option (Rep Value)) (rep : Rep Value)
      → ((p : Rep Value) → prior ≡ some p → IsUnique p)
      → IsUnique rep
      → (differs prior rep ≡ false)
        ↔ ((p : Rep Value) × (prior ≡ some p) × ((k : String) → get p k ≡ get rep k))
  unfolding differs
  differs_iff none rep h u = (λ e. absurd (ground arith), λ p. absurd (ground arith))
  differs_iff (some p) rep h u = (
    λ e. (p, refl, (same_iff p rep (h p refl) u).0 (ground arith)),
    λ (q, e, h').
        let same_rep : q ≡ p = ground arith in
        let e' = (same_iff p rep (h p refl) u).1 (rw same_rep at h') in ground arith,
  )

set_keys :
    {A B : Type 0} (d : Dict Href A) (e : Dict Href B) (k : Href) (a : A) (b : B)
    → ((j : Href) → (get d j ≡ none) ↔ (get e j ≡ none))
    → (j : Href) → (get (set d k a) j ≡ none) ↔ (get (set e k b) j ≡ none)
set_keys d e k a b h j = elim (Bool-cases (same_href j k)) [
  | inl found ↦
      (λ n. absurd (ground (arith, get-set d k a j)), λ n. absurd (ground (arith, get-set e k b j)))
  | inr apart ↦ (
    λ n. ground (arith, get-set e k b j, (h j).0 (ground (arith, get-set d k a j))),
    λ n. ground (arith, get-set d k a j, (h j).1 (ground (arith, get-set e k b j))),
  )
]

stored-IsUnique :
    {Value : Type 0} (links : Dict Href (Rep Value)) (href : Href) (result : Rep Value) (j : Href)
    (r : Rep Value)
    → ((r' : Rep Value) → get links j ≡ some r' → IsUnique r')
    → IsUnique result
    → get (set links href result) j ≡ some r
    → IsUnique r
stored-IsUnique links href result j r h u e = elim (Bool-cases (same_href j href)) [
  | inl found ↦
      let same_rep : r ≡ result = ground (arith, get-set links href result j) in rw same_rep u
  | inr apart ↦ h r (ground (arith, get-set links href result j))
]

module _ {Value State : Type 0} ⦃val : Eq Value⦄ where
  -- What a call leaves and returns.
  pub record Applied (c c' : StateCache Value State) (now : ℕ) (href : Href) (rep : Rep Value)
      (source : String) (merge changed : Bool) : Type 0 where
    pub result : Rep Value
    pub stored : get c'.links href ≡ some result
    pub fields : (k : String) → get result k ≡ expected merge (get c.links href) rep k
    pub others : (j : Href) → (same_href j href) ≡ false → get c'.links j ≡ get c.links j
    pub time : get c'.last_updated href ≡ some now
    pub label : get c'.source href ≡ some source
    pub unchanged :
        (changed ≡ false)
        ↔ ((p : Rep Value) × (get c.links href ≡ some p) × ((k : String) → get p k ≡ get result k))

  -- A call with a dict, on a cache whose dicts are consistent: the href now holds every key of the new
  -- representation, and with `merge` also the keys that only the representation before it had; every other href
  -- keeps its representation; and the call reports no change exactly if there was a representation with the same fields.
  pub apply_rep-Applied :
      (h : Hooks Value State) (now : ℕ) (c : StateCache Value State) (href : Href) (rep : Rep Value)
      (source : String) (merge : Bool)
      → IsConsistent c
      → IsUnique rep
      → Applied c
          (apply_rep h now c href (dict rep) source merge).0
          now
          href
          rep
          source
          merge
          (apply_rep h now c href (dict rep) source merge).1
  unfolding apply_rep apply_dict
  apply_rep-Applied h now c href rep source merge i u =
      let prior = get c.links href in
      let same_key : (same_href href href) ≡ true = (same_href_iff href href).1 refl in
      let u' = resulting-IsUnique merge prior rep u (λ p. i.unique_reps href p) in
      record {
        result = resulting merge prior rep;
        stored = ground (arith, get-set c.links href (resulting merge prior rep) href);
        fields = λ k. get-resulting merge prior rep k u;
        others = λ j apart. ground (arith, get-set c.links href (resulting merge prior rep) j);
        time = ground (arith, get-set c.last_updated href now href);
        label = ground (arith, get-set c.source href source href);
        unchanged = differs_iff prior (resulting merge prior rep) (λ p. i.unique_reps href p) u';
      }

  -- A call keeps the cache consistent.
  pub apply_rep-IsConsistent :
      (h : Hooks Value State) (now : ℕ) (c : StateCache Value State) (href : Href) (rep : Rep Value)
      (source : String) (merge : Bool)
      → IsConsistent c
      → IsUnique rep
      → IsConsistent (apply_rep h now c href (dict rep) source merge).0
  unfolding apply_rep apply_dict
  apply_rep-IsConsistent h now c href rep source merge i u =
      let prior = get c.links href in
      let result = resulting merge prior rep in
      let u' = resulting-IsUnique merge prior rep u (λ p. i.unique_reps href p) in
      record {
        unique_links = set-IsUnique c.links href result i.unique_links;
        unique_times = set-IsUnique c.last_updated href now i.unique_times;
        unique_sources = set-IsUnique c.source href source i.unique_sources;
        unique_reps =
            λ j r e. stored-IsUnique c.links href result j r (λ r' e'. i.unique_reps j r' e') u' e;
        timed = set_keys c.links c.last_updated href result now i.timed;
        sourced = set_keys c.links c.source href result source i.sourced;
      }
