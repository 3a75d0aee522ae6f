-- ===== src/Ocf/StateCache/Optimistic.antt =====
-- Repeated and optimistic writes, through `apply_rep`.
use smart_things_local.Prelude.{
  ℕ, Bool, true, false, ◌≡◌, refl, sym, ◌∙◌, ◌⊎◌, inl, inr, [], ◌∷◌, ◌++◌, append_assoc, append-nil,
  Option, none, some, arith, Bool-cases, Option-cases,
}
use Prim.Native.String.{String}
use smart_things_local.Ocf.Dict.{Eq, Dict, get, set, update}
use smart_things_local.Ocf.Dict.Laws.{IsUnique, get-set}
use smart_things_local.Ocf.StateCache.{
  string_eq, href_eq, Href, Rep, dict, StateCache, Hooks, resulting, held, apply_dict, apply_rep,
  apply_optimistic,
}
use smart_things_local.Ocf.StateCache.Apply.{
  IsConsistent, expected, apply_rep-Applied, apply_rep-IsConsistent,
}

module _ {K V : Type 0} ⦃key : Eq K⦄ where
  set_absent : (d : Dict K V) (k : K) (v : V) → get d k ≡ none → set d k v ≡ d ++ ((k, v) ∷ [])
  unfolding set get
  set_absent [] k v h = refl
  set_absent ((j, w) ∷ d) k v h = ground (arith, set_absent d k v)

  update_absent :
      (d e : Dict K V)
      → IsUnique e
      → ((j : K) → (get d j ≡ none) ⊎ (get e j ≡ none))
      → update d e ≡ d ++ e
  unfolding update get
  update_absent d [] u h = sym (append-nil d)
  update_absent d ((k, v) ∷ e) u h =
      let missing : get d k ≡ none = elim (h k) [
        | inl a ↦ a
        | inr b ↦ let found = (key.equal_iff k k).1 refl in absurd (ground arith)
      ] in
      update_absent (set d k v) e u.1 (λ j. elim (Bool-cases (key.equal j k)) [
        | inl found ↦ let same_key = (key.equal_iff j k).0 found in inr (rw same_key u.0)
        | inr apart ↦ elim (h j) [
          | inl a ↦ inl (ground (arith, get-set d k v j))
          | inr b ↦ inr (rw apart at b)
        ]
      ])
      ∙ rw (set_absent d k v missing) (append_assoc d ((k, v) ∷ []) e)

module _ {Value : Type 0} where
  merged :
      (prior : Option (Rep Value)) (body : Rep Value)
      → IsUnique body
      → update (held prior) body ≡ resulting true prior body
  unfolding resulting get
  merged none body u = update_absent [] body u (λ j. inl refl)
  merged (some []) body u = update_absent [] body u (λ j. inl refl)
  merged (some (p ∷ ps)) body u = refl

  -- Merging twice adds nothing.
  again :
      (merge : Bool) (before after : Option (Rep Value)) (result rep : Rep Value) (k : String)
      → after ≡ some result
      → get result k ≡ expected merge before rep k
      → expected merge before rep k ≡ expected merge after rep k
  again true before after result rep k e h = elim (Option-cases (get rep k)) [
    | inl missing ↦ rw e (rw missing (rw missing at (sym h)))
    | inr (v, there) ↦ rw there refl
  ]
  again false before after result rep k e h = refl

module _ {Value State : Type 0} ⦃val : Eq Value⦄ where
  -- An optimistic write is `apply_rep` of a partial representation with the source `optimistic`.
  apply_optimistic-apply_rep :
      (h : Hooks Value State) (now : ℕ) (c : StateCache Value State) (href : Href)
      (body : Rep Value)
      → IsUnique body
      → apply_optimistic h now c href (dict body)
        ≡ apply_rep h now c href (dict body) "optimistic" true
  unfolding apply_optimistic apply_rep apply_dict resulting
  apply_optimistic-apply_rep h now c href body u = rw (merged (get c.links href) body u) refl

  -- The same representation again, merged or not: the second call reports no change.
  apply_rep_again :
      (h : Hooks Value State) (now later : ℕ) (c : StateCache Value State) (href : Href)
      (rep : Rep Value) (source source' : String) (merge : Bool)
      → IsConsistent c
      → IsUnique rep
      → (apply_rep h later
          (apply_rep h now c href (dict rep) source merge).0
          href
          (dict rep)
          source'
          merge).1
        ≡ false
  apply_rep_again h now later c href rep source source' merge i u =
      let first = apply_rep-Applied h now c href rep source merge i u in
      let second =
        apply_rep-Applied h later (apply_rep h now c href (dict rep) source merge).0 href rep
          source' merge (apply_rep-IsConsistent h now c href rep source merge i u) u in
      second.unchanged.1 (
        first.result,
        first.stored,
        λ k.
            first.fields k
            ∙ again merge (get c.links href) _ first.result rep k first.stored (first.fields k)
            ∙ sym (second.fields k),
      )
