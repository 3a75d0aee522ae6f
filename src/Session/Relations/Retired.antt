-- ===== src/Session/Relations/Retired.antt =====
-- A retired token keeps no relation.
use smart_things_local.Prelude.{
  ◌≡◌, refl, sym, ap, ◌∙◌, Bool, true, false, ◌&&◌, ◌||◌, [], ◌∷◌, arith, Bool-cases, inl, inr,
}
use smart_things_local.Ocf.Dict.{Eq, Dict, get, remove}
use smart_things_local.Ocf.Dict.Laws.{get-remove, equal_sym}
use smart_things_local.Session.Relations.{
  Relations, retire_observe_token, proves, query_of, observes, some_active, observe_relation_active,
}

module _ {Token : Type 0} ⦃key : Eq Token⦄ where
  kept :
      {A : Type 0} (d : Dict Token A) (tok t : Token)
      → key.equal t tok ≡ false
      → get (remove d tok) t ≡ get d t
  kept d tok t apart = get-remove d tok t ∙ rw apart refl

module _ {Token Href Query : Type 0} ⦃key : Eq Token⦄ where
  proves-retire :
      (r : Relations Token Href Query) (tok t : Token) (legacy : Bool)
      → key.equal t tok ≡ false
      → proves (retire_observe_token r tok) t legacy ≡ proves r t legacy
  unfolding proves retire_observe_token
  proves-retire r tok t legacy apart =
      rw
        (
          kept r.legacy_tokens tok t apart,
          kept r.sequences tok t apart,
          kept r.plain_response_mids tok t apart,
        )
        refl

module _ {Token Href Query : Type 0} ⦃key : Eq Token⦄ ⦃href_eq : Eq Href⦄ ⦃query_eq : Eq Query⦄
    (no_query : Query) where
  -- A token, other than the retired one, that owned the relation before.
  pub record Owner (r : Relations Token Href Query) (tok : Token) (href : Href) (query : Query)
      (legacy : Bool) : Type 0 where
    pub owner : Token
    pub observed : Href
    pub is_other : key.equal owner tok ≡ false
    pub owned : observes no_query r href query owner observed ≡ true
    pub proved : proves r owner legacy ≡ true

  query_of-retire :
      (r : Relations Token Href Query) (tok t : Token)
      → key.equal t tok ≡ false
      → query_of no_query (retire_observe_token r tok) t ≡ query_of no_query r t
  unfolding query_of retire_observe_token
  query_of-retire r tok t apart = let e = kept r.queries tok t apart in ground (arith, e)

  observes-retire :
      (r : Relations Token Href Query) (tok t : Token) (href observed : Href) (query : Query)
      → key.equal t tok ≡ false
      → observes no_query (retire_observe_token r tok) href query t observed
        ≡ observes no_query r href query t observed
  unfolding observes
  observes-retire r tok t href observed query apart =
      ap (λ (q : Query). href_eq.equal observed href && query_eq.equal q query)
        (query_of-retire r tok t apart)

  some_active-remove :
      (r : Relations Token Href Query) (tok : Token) (href : Href) (query : Query) (legacy : Bool)
      (d : Dict Token Href)
      → some_active no_query (retire_observe_token r tok) href query legacy (remove d tok) ≡ true
      → Owner r tok href query legacy
  unfolding some_active remove
  some_active-remove r tok href query legacy [] h = absurd (ground arith)
  some_active-remove r tok href query legacy ((t, observed) ∷ d) h =
      let r' = retire_observe_token r tok in
      let head = observes no_query r' href query t observed && proves r' t legacy in
      elim (Bool-cases (key.equal tok t)) [
        | inl gone ↦ some_active-remove r tok href query legacy d (rw gone at h)
        | inr stays ↦
            let apart = equal_sym t tok ∙ stays in
            let h' : (head || some_active no_query r' href query legacy (remove d tok)) ≡ true =
              rw stays at h in
            elim (Bool-cases head) [
              | inl active ↦
                  let owned : observes no_query r' href query t observed ≡ true = ground arith in
                  let proved : proves r' t legacy ≡ true = ground arith in
                  record {
                    owner = t;
                    observed = observed;
                    is_other = apart;
                    owned = sym (observes-retire r tok t href observed query apart) ∙ owned;
                    proved = sym (proves-retire r tok t legacy apart) ∙ proved;
                  }
              | inr idle ↦ some_active-remove r tok href query legacy d (rw idle at h')
            ]
      ]

  -- A relation that is active after a token is retired is owned by another token, which owned it before.
  observe_relation_active-retire :
      (r : Relations Token Href Query) (tok : Token) (href : Href) (query : Query) (legacy : Bool)
      → observe_relation_active no_query (retire_observe_token r tok) href query legacy ≡ true
      → Owner r tok href query legacy
  unfolding observe_relation_active retire_observe_token
  observe_relation_active-retire r tok href query legacy h =
      some_active-remove r tok href query legacy r.tokens h
