-- ===== src/Ocf/Dict.antt =====
-- Python's dicts, as far as the modelled code uses them: pairs in the order of insertion, one for each key.
pub mod Laws
pub mod Equality
use smart_things_local.Prelude.{
  ℕ, Bool, true, false, ◌&&◌, ◌≡◌, ◌↔◌, List, [], ◌∷◌, Option, none, some, if◌then◌else◌,
}

pub record Eq {ℓ} (A : Type ℓ) : Type ℓ where
  pub equal : A → A → Bool
  pub equal_iff : (a b : A) → (equal a b ≡ true) ↔ (a ≡ b)

abbrev pub Dict : Type 0 → Type 0 → Type 0
Dict K V = List (K × V)

module _ {K V : Type 0} ⦃key : Eq K⦄ where
  -- `d.get(k)`
  unfoldable pub get : Dict K V → K → Option V
  get [] k = none
  get ((j, v) ∷ d) k = if key.equal k j then some v else get d k

  -- `d[k] = v`: a key that is there keeps its place.
  unfoldable pub set : Dict K V → K → V → Dict K V
  set [] k v = (k, v) ∷ []
  set ((j, w) ∷ d) k v = if key.equal k j then (j, v) ∷ d else (j, w) ∷ set d k v

  -- `{**d, **e}`, and `d.update(e)`
  unfoldable pub update : Dict K V → Dict K V → Dict K V
  update d [] = d
  update d ((k, v) ∷ e) = update (set d k v) e

  -- `d.pop(k, None)`
  unfoldable pub remove : Dict K V → K → Dict K V
  remove [] k = []
  remove ((j, v) ∷ d) k = let rest = remove d k in if key.equal k j then rest else (j, v) ∷ rest

  module _ ⦃val : Eq V⦄ where
    unfoldable pub holds : Dict K V → K → V → Bool
    unfolding get
    holds d k v = elim (get d k) [ none ↦ false | some w ↦ val.equal w v ]

    unfoldable pub includes : Dict K V → Dict K V → Bool
    includes d [] = true
    includes d ((k, v) ∷ e) = holds d k v && includes d e

    -- `d == e`: the same keys with equal values, in any order.
    unfoldable pub same : Dict K V → Dict K V → Bool
    same d e = includes d e && includes e d
