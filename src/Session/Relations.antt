-- ===== src/Session/Relations.antt =====
-- The observe relations: `_retire_observe_token_locked`, `_clear_observe_relations`,
-- `_observe_sequence_for` and `_observe_relation_active`.
pub mod Retired
use smart_things_local.Prelude.{
  ℕ, Bool, true, false, not, ◌&&◌, ◌||◌, List, [], ◌∷◌, Option, none, some, if◌then◌else◌,
}
use smart_things_local.Ocf.Dict.{Eq, Dict, get, remove}

-- The indices of a token, a set as a dict of units: `_observe_tokens`, `_observe_queries`,
-- `_observe_plain_response_mids`, `_legacy_observe_tokens`, `_legacy_observe_mids` and `_observe_sequences`,
-- the last with the time of receipt.
pub record Relations (Token Href Query : Type 0) : Type 0 where
  pub tokens : Dict Token Href
  pub queries : Dict Token Query
  pub plain_response_mids : Dict Token ℕ
  pub legacy_tokens : Dict Token (Unit {0})
  pub legacy_mids : Dict Token ℕ
  pub sequences : Dict Token (ℕ × ℕ)

abbrev pub has : {A : Type 0} → Option A → Bool
has none = false
has (some a) = true

module _ {Token Href Query : Type 0} where
  abbrev pub clear_observe_relations : Relations Token Href Query → Relations Token Href Query
  clear_observe_relations r = record {
    tokens = [];
    queries = [];
    plain_response_mids = [];
    legacy_tokens = [];
    legacy_mids = [];
    sequences = [];
  }

module _ {Token Href Query : Type 0} ⦃key : Eq Token⦄ where
  unfoldable pub retire_observe_token :
      Relations Token Href Query → Token → Relations Token Href Query
  retire_observe_token r tok = record {
    tokens = remove r.tokens tok;
    queries = remove r.queries tok;
    plain_response_mids = remove r.plain_response_mids tok;
    legacy_tokens = remove r.legacy_tokens tok;
    legacy_mids = remove r.legacy_mids tok;
    sequences = remove r.sequences tok;
  }

  -- Whether the token proves a relation of this kind.
  unfoldable pub proves : Relations Token Href Query → Token → Bool → Bool
  proves r tok legacy =
      if legacy
      then has (get r.legacy_tokens tok)
      else has (get r.sequences tok)
        || (has (get r.plain_response_mids tok) && not (has (get r.legacy_tokens tok)))

module _ {Token Href Query : Type 0} ⦃key : Eq Token⦄ ⦃href_eq : Eq Href⦄ ⦃query_eq : Eq Query⦄
    (no_query : Query) where
  -- `self._observe_queries.get(tok, ())`
  unfoldable pub query_of : Relations Token Href Query → Token → Query
  query_of r tok = elim (get r.queries tok) [ none ↦ no_query | some q ↦ q ]

  unfoldable pub observes : Relations Token Href Query → Href → Query → Token → Href → Bool
  observes r href query tok observed =
      href_eq.equal observed href && query_eq.equal (query_of r tok) query

  -- The loop over the tokens.
  unfoldable pub some_active :
      Relations Token Href Query → Href → Query → Bool → Dict Token Href → Bool
  some_active r href query legacy [] = false
  some_active r href query legacy ((tok, observed) ∷ rest) =
      (observes r href query tok observed && proves r tok legacy)
      || some_active r href query legacy rest

  unfoldable pub observe_relation_active : Relations Token Href Query → Href → Query → Bool → Bool
  observe_relation_active r href query legacy = some_active r href query legacy r.tokens

  unfoldable pub first_sequence :
      Relations Token Href Query → Href → Query → Dict Token Href → Option ℕ
  first_sequence r href query [] = none
  first_sequence r href query ((tok, observed) ∷ rest) =
      let later = first_sequence r href query rest in
      if observes r href query tok observed
      then elim (get r.sequences tok) [ none ↦ later | some recorded ↦ some recorded.0 ]
      else later

  unfoldable pub observe_sequence_for : Relations Token Href Query → Href → Query → Option ℕ
  observe_sequence_for r href query = first_sequence r href query r.tokens
