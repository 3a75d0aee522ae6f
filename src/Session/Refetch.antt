-- ===== src/Session/Refetch.antt =====
-- The queue of blockwise notifications to read again: `_queue_refetch`, what `_refetch_loop` takes from it,
-- `_discard_refetches_for_hrefs`, and what becomes of a refetch that has been read.
pub mod Queue
use smart_things_local.Prelude.{
  ℕ, ◌+◌, Bool, true, false, not, ◌&&◌, ◌||◌, ◌≡◌, ◌↔◌, refl, ap, List, [], ◌∷◌, Option, none, some,
  arith, ltb, leb, ◌==◌, if◌then◌else◌, length,
}
use smart_things_local.Ocf.Dict.{Eq, Dict, get, set, remove}
use smart_things_local.Session.Relations.{has}

abbrev pub max_pending_refetch : ℕ
max_pending_refetch = 16

-- A relation: its path, its query, and whether it is of the legacy form.
abbrev pub RefetchKey : Type 0 → Type 0 → Type 0
RefetchKey Href Query = Href × Query × Bool

abbrev pub bool_same : Bool → Bool → Bool
bool_same true b = b
bool_same false b = not b

bool_same_iff : (a b : Bool) → (bool_same a b ≡ true) ↔ (a ≡ b)
bool_same_iff true true = ground arith
bool_same_iff true false = ground arith
bool_same_iff false true = ground arith
bool_same_iff false false = ground arith

module _ {Href Query : Type 0} ⦃href_eq : Eq Href⦄ ⦃query_eq : Eq Query⦄ where
  abbrev pub key_same : RefetchKey Href Query → RefetchKey Href Query → Bool
  key_same (h, q, l) (h', q', l') = href_eq.equal h h' && query_eq.equal q q' && bool_same l l'

  pub key_same_iff : (a b : RefetchKey Href Query) → (key_same a b ≡ true) ↔ (a ≡ b)
  key_same_iff (h, q, l) (h', q', l') =
      ground (arith, href_eq.equal_iff h h', query_eq.equal_iff q q', bool_same_iff l l')

  instance abbrev pub key_eq : Eq (RefetchKey Href Query)
  key_eq = record { equal = key_same; equal_iff = key_same_iff }

module _ {Href : Type 0} ⦃href_eq : Eq Href⦄ where
  -- `href in hrefs`
  unfoldable pub is_among : List Href → Href → Bool
  is_among [] href = false
  is_among (h ∷ hs) href = href_eq.equal h href || is_among hs href

-- `_refetch_pending` and `_refetch_seq`: for a relation the number of its newest request, and whether that answers a
-- registration.
pub record Refetches (Href Query : Type 0) : Type 0 where
  pub pending : Dict (RefetchKey Href Query) (ℕ × Bool)
  pub seq : ℕ

module _ {Href Query : Type 0} ⦃href_eq : Eq Href⦄ ⦃query_eq : Eq Query⦄ where
  unfoldable pub queue_refetch :
      Refetches Href Query → RefetchKey Href Query → Bool → Refetches Href Query
  queue_refetch q key registration =
      if not (has (get q.pending key)) && leb max_pending_refetch (length q.pending)
      then q
      else record q { pending = set q.pending key (q.seq + 1, registration); seq = q.seq + 1 }

  unfoldable pub take_entry :
      Refetches Href Query
      → Dict (RefetchKey Href Query) (ℕ × Bool)
      → Option (RefetchKey Href Query × (ℕ × Bool)) × Refetches Href Query
  take_entry q [] = (none, q)
  take_entry q (entry ∷ _) = (some entry, record q { pending = remove q.pending entry.0 })

  -- The oldest relation that waits, as the loop takes it.
  unfoldable pub take_refetch :
      Refetches Href Query → Option (RefetchKey Href Query × (ℕ × Bool)) × Refetches Href Query
  take_refetch q = take_entry q q.pending

  unfoldable pub discard_pending :
      List Href → Dict (RefetchKey Href Query) (ℕ × Bool) → Dict (RefetchKey Href Query) (ℕ × Bool)
  discard_pending hrefs [] = []
  discard_pending hrefs ((key, newest) ∷ d) =
      let rest = discard_pending hrefs d in
      if is_among hrefs key.0 then rest else (key, newest) ∷ rest

  unfoldable pub discard_refetches_for_hrefs :
      Refetches Href Query → List Href → Refetches Href Query
  discard_refetches_for_hrefs q hrefs = record q { pending = discard_pending hrefs q.pending }

  -- `self._refetch_pending.get(key, (0, False))[0] > seq`
  unfoldable pub is_superseded : Refetches Href Query → RefetchKey Href Query → ℕ → Bool
  is_superseded q key seq = elim (get q.pending key) [
    | none ↦ false
    | some newest ↦ ltb seq newest.0
  ]
