-- ===== src/Ocf/StateCache.antt =====
-- smartthings_local/ocf/state_cache.py: the state of one appliance. A CBOR value is a parameter; the
-- time, of a clock that does not go back, and the hook of the descriptor are arguments. Calls follow
-- one another: `apply_optimistic` takes the lock twice, and what another thread may do between is
-- not modelled.
pub mod Apply
pub mod Optimistic
pub mod Stalest
pub mod Examples
use smart_things_local.Prelude.{
  ℕ, ◌-◌, Bool, true, false, not, ◌&&◌, ◌<◌, ◌≡◌, ◌↔◌, ap, arith, leb, List, [], ◌∷◌, Option, none,
  some, ltb, if◌then◌else◌,
}
use Prim.Native.String.{String}
use text.Mathlib.Text.{◌==◌}
use text.Mathlib.TextEquality.{eq_iff}
use smart_things_local.Errors.{Result, ok, err, type_error}
use smart_things_local.Ocf.Dict.{Eq, Dict, get, set, update, same}

instance abbrev pub string_eq : Eq String
string_eq = record { equal = ◌==◌; equal_iff = eq_iff }

-- A key of the cache: an href that is a text, or any other hashable value that a device tree may give for one, numbered so that
-- values that compare equal have one number.
pub data Href : Type 0 where
  textual : String → Href
  atom : ℕ → Href

unfoldable pub same_href : Href → Href → Bool
same_href (textual s) (textual t) = s == t
same_href (textual s) (atom m) = false
same_href (atom n) (textual t) = false
same_href (atom n) (atom m) = leb n m && leb m n

pub same_href_iff : (a b : Href) → (same_href a b ≡ true) ↔ (a ≡ b)
unfolding same_href
same_href_iff (textual s) (textual t) =
    (λ e. ap textual ((eq_iff s t).0 e), λ e. (eq_iff s t).1 (ground arith))
same_href_iff (textual s) (atom m) = (λ e. absurd (ground arith), λ e. absurd (ground arith))
same_href_iff (atom n) (textual t) = (λ e. absurd (ground arith), λ e. absurd (ground arith))
same_href_iff (atom n) (atom m) = (λ e. ap atom (ground arith), λ e. ground arith)

instance abbrev pub href_eq : Eq Href
href_eq = record { equal = same_href; equal_iff = same_href_iff }

abbrev pub Rep : Type 0 → Type 0
Rep Value = Dict String Value

-- What a caller passes: a dict, or anything else.
pub data Body (Value : Type 0) : Type 0 where
  dict : Rep Value → Body Value
  other : Body Value

-- `changes` are the calls of the `on_change` callback, newest first.
pub record StateCache (Value State : Type 0) : Type 0 where
  pub links : Dict Href (Rep Value)
  pub last_updated : Dict Href ℕ
  pub source : Dict Href String
  pub descriptor_state : State
  pub changes : List (Bool × String)

-- `__init__`; the descriptor's state starts as an empty dict
abbrev pub init : {Value State : Type 0} → State → StateCache Value State
init state = record {
  links = [];
  last_updated = [];
  source = [];
  descriptor_state = state;
  changes = [];
}

-- What is registered: the hook, with the state that it leaves whether or not it raises, and whether there
-- is a callback.
pub record Hooks (Value State : Type 0) : Type 0 where
  pub on_observation : Option (State → Href → Rep Value → State)
  pub has_on_change : Bool

module _ {Value : Type 0} where
  -- `merge and prior`
  abbrev pub merges : Bool → Option (Rep Value) → Option (Rep Value)
  merges true (some (p ∷ ps)) = some (p ∷ ps)
  merges true (some []) = none
  merges true none = none
  merges false prior = none

  unfoldable pub resulting : Bool → Option (Rep Value) → Rep Value → Rep Value
  resulting merge prior rep = elim (merges merge prior) [ none ↦ rep | some p ↦ update p rep ]

  -- `self.links.get(href) or {}`
  abbrev pub held : Option (Rep Value) → Rep Value
  held none = []
  held (some rep) = rep

module _ {Value : Type 0} ⦃val : Eq Value⦄ where
  -- `prior != resulting`
  unfoldable pub differs : Option (Rep Value) → Rep Value → Bool
  differs none rep = true
  differs (some prior) rep = not (same prior rep)

module _ {Value State : Type 0} where
  abbrev pub set_on_change : Hooks Value State → Hooks Value State
  set_on_change h = record h { has_on_change = true }

  unfoldable pub observe : Hooks Value State → State → Href → Rep Value → State
  observe h state href rep = elim h.on_observation [
    | none ↦ state
    | some hook ↦ hook state href rep
  ]

  unfoldable pub notify :
      Hooks Value State → Bool × String → List (Bool × String) → List (Bool × String)
  notify h change changes = if h.has_on_change then change ∷ changes else changes

module _ {Value State : Type 0} ⦃val : Eq Value⦄ where
  -- `apply_rep` at the time `now`, on a dict
  unfoldable pub apply_dict :
      Hooks Value State
      → ℕ
      → StateCache Value State
      → Href
      → Rep Value
      → String
      → Bool
      → StateCache Value State × Bool
  apply_dict h now c href rep source merge =
      let prior = get c.links href in
      let result = resulting merge prior rep in
      let changed = differs prior result in
      (
        record {
          links = set c.links href result;
          last_updated = set c.last_updated href now;
          source = set c.source href source;
          descriptor_state = observe h c.descriptor_state href result;
          changes = notify h (changed, source) c.changes;
        },
        changed,
      )

  -- `apply_rep`
  unfoldable pub apply_rep :
      Hooks Value State
      → ℕ
      → StateCache Value State
      → Href
      → Body Value
      → String
      → Bool
      → StateCache Value State × Bool
  apply_rep h now c href other source merge = (c, false)
  apply_rep h now c href (dict rep) source merge = apply_dict h now c href rep source merge

  unfoldable pub apply_optimistic :
      Hooks Value State
      → ℕ
      → StateCache Value State
      → Href
      → Body Value
      → StateCache Value State × Bool
  apply_optimistic h now c href other = (c, false)
  apply_optimistic h now c href (dict body) =
      apply_dict h now c href (update (held (get c.links href)) body) "optimistic" false

-- An entry of the tree, as far as the code looks at it: no dict with an href; a dict whose href cannot be
-- hashed; or one whose href can, with its rep where that is truthy.
pub data Entry (Value : Type 0) : Type 0 where
  no_href : Entry Value
  unhashable : Entry Value
  link : Href → Option (Body Value) → Entry Value

-- `entry.get('rep') or {}`
abbrev pub shown : {Value : Type 0} → Option (Body Value) → Body Value
shown none = dict []
shown (some rep) = rep

module _ {Value : Type 0} where
  -- The loop of `index_device_tree` over the list.
  unfoldable pub index_entries :
      Dict Href (Body Value) → List (Entry Value) → Result (Dict Href (Body Value))
  index_entries out [] = ok out
  index_entries out (no_href ∷ entries) = index_entries out entries
  index_entries out (unhashable ∷ entries) = err type_error
  index_entries out (link href rep ∷ entries) =
      if same_href href (textual "/device/0")
      then index_entries out entries
      else index_entries (set out href (shown rep)) entries

  -- On a list; anything else gives no links.
  abbrev pub index_device_tree : List (Entry Value) → Result (Dict Href (Body Value))
  index_device_tree entries = index_entries [] entries

module _ {Value State : Type 0} where
  abbrev pub freshness_s : ℕ → StateCache Value State → Href → Option ℕ
  freshness_s now c href = elim (get c.last_updated href) [
    | none ↦ none
    | some ts ↦ some (now - ts)
  ]

-- `min` over the keys by their times: the first of the smallest.
unfoldable pub oldest : Href × ℕ → Dict Href ℕ → Href × ℕ
oldest best [] = best
oldest best ((href, ts) ∷ rest) = if ltb ts best.1 then oldest (href, ts) rest else oldest best rest

module _ {Value State : Type 0} where
  unfoldable pub stalest : ℕ → StateCache Value State → Option (Href × ℕ)
  stalest now c = elim c.last_updated [
    | [] ↦ none
    | first ∷ rest ↦ let o = oldest first rest in some (o.0, now - o.1)
  ]
