-- ===== src/Session/Recording.antt =====
-- What `_dispatch_coap` records of a notification with code 2.05 on a known observe token.
pub mod Automaton
pub mod Others
use smart_things_local.Prelude.{
  ℕ, ◌/◌, Bool, true, false, not, ◌&&◌, ◌||◌, List, [], ◌∷◌, Option, none, some, ltb, ◌==◌,
  if◌then◌else◌, length,
}
use smart_things_local.Prelude.Bytes.{Bytes, from_bytes}
use smart_things_local.Coap.Block.{block_fields}
use smart_things_local.Ocf.Dict.{Eq, Dict, get, set, remove}
use smart_things_local.Session.Observe.{observe_sequence_is_fresh}
use smart_things_local.Session.Relations.{Relations, has}

-- Whether the notification goes to the refetch worker; `none` where its Block2 option is malformed.
unfoldable pub blockwise_refetch : List Bytes → Option Bool
blockwise_refetch [] = some false
blockwise_refetch (value ∷ []) =
    let f = block_fields value in
    if ltb 3 (length value) then none else some (not (f.more == 0) || not (f.num == 0))
blockwise_refetch (value ∷ _ ∷ _) = none

-- What becomes of a notification: it is dropped, it is the first one on a relation that may be of the legacy form, or
-- it is delivered (with `registration`, `legacy` and `sequence`).
pub data Recorded : Type 0 where
  dropped probation : Recorded
  accepted : Bool → Bool → Option ℕ → Recorded

-- `d.get(tok) == mid`
abbrev pub is_mid : Option ℕ → ℕ → Bool
is_mid none mid = false
is_mid (some m) mid = m == mid

module _ {Token Href Query : Type 0} ⦃key : Eq Token⦄ where
  -- With one Observe value.
  unfoldable pub record_sequence :
      Relations Token Href Query → Token → ℕ → ℕ → Relations Token Href Query × Recorded
  record_sequence r tok sequence received_at =
      let previous = get r.sequences tok in
      if not (observe_sequence_is_fresh previous sequence received_at) then (r, dropped) else (
        record r {
          sequences = set r.sequences tok (sequence, received_at);
          plain_response_mids = remove r.plain_response_mids tok;
          legacy_tokens = remove r.legacy_tokens tok;
          legacy_mids = remove r.legacy_mids tok;
        },
        accepted (not (has previous)) false (some sequence),
      )

  -- The first plain notification, or a later one, on a token not known to be of the legacy form.
  unfoldable pub record_probation :
      Relations Token Href Query → Token → ℕ → Option ℕ → Relations Token Href Query × Recorded
  record_probation r tok mid none =
      (record r { plain_response_mids = set r.plain_response_mids tok mid }, probation)
  record_probation r tok mid (some initial_mid) = if initial_mid == mid then (r, dropped) else (
    record r {
      legacy_tokens = set r.legacy_tokens tok tt;
      legacy_mids = set r.legacy_mids tok mid;
    },
    accepted false true none,
  )

  -- Without an Observe option.
  unfoldable pub record_plain :
      Relations Token Href Query → Token → ℕ → Relations Token Href Query × Recorded
  record_plain r tok mid =
      if has (get r.sequences tok)
      then (r, dropped)
      else if has (get r.legacy_tokens tok)
      then (if is_mid (get r.legacy_mids tok) mid
          then (r, dropped)
          else (record r { legacy_mids = set r.legacy_mids tok mid }, accepted false true none))
      else record_probation r tok mid (get r.plain_response_mids tok)

  unfoldable pub record_notification :
      Relations Token Href Query
      → Token
      → ℕ
      → List Bytes
      → ℕ
      → Relations Token Href Query × Recorded
  record_notification r tok mid [] received_at = record_plain r tok mid
  record_notification r tok mid (value ∷ []) received_at =
      if ltb 3 (length value)
      then (r, dropped)
      else record_sequence r tok (from_bytes value) received_at
  record_notification r tok mid (value ∷ _ ∷ _) received_at = (r, dropped)

-- After the pending callback: whether the relation is still the one that was recorded.
module _ {Token Href Query : Type 0} ⦃key : Eq Token⦄ ⦃href_eq : Eq Href⦄ ⦃query_eq : Eq Query⦄
    (no_query : Query) where
  unfoldable pub still_probationary : Relations Token Href Query → Token → Href → Query → ℕ → Bool
  still_probationary r tok href query mid =
      elim (get r.tokens tok) [ none ↦ false | some observed ↦ href_eq.equal observed href ]
      && query_eq.equal (elim (get r.queries tok) [ none ↦ no_query | some q ↦ q ]) query
      && is_mid (get r.plain_response_mids tok) mid
      && not (has (get r.legacy_tokens tok))
      && not (has (get r.sequences tok))
