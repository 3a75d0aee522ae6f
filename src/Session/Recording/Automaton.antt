-- ===== src/Session/Recording/Automaton.antt =====
-- The four indices of a token that record its notifications, as the states of an automaton.
use smart_things_local.Prelude.{
  ℕ, ◌≡◌, refl, ◌∙◌, true, false, List, [], ◌∷◌, Option, none, some, ltb, ◌==◌, if◌then◌else◌,
  length, Bool-cases, inl, inr,
}
use smart_things_local.Prelude.Bytes.{Bytes, from_bytes}
use smart_things_local.Ocf.Dict.{Eq, get, set, remove}
use smart_things_local.Ocf.Dict.Laws.{get-set, get-remove}
use smart_things_local.Session.Observe.{observe_sequence_is_fresh}
use smart_things_local.Session.Relations.{Relations}
use smart_things_local.Session.Recording.{
  Recorded, dropped, probation, accepted, record_sequence, record_probation, record_plain,
  record_notification,
}

-- Nothing came yet; one plain message; several plain messages, the first one and the last one; or an Observe value, and
-- when it was received.
pub data ObserveState : Type 0 where
  silent : ObserveState
  probationary : ℕ → ObserveState
  legacy : ℕ → ℕ → ObserveState
  numbered : ℕ → ℕ → ObserveState

unfoldable pub see_sequence : ObserveState → ℕ → ℕ → ObserveState × Recorded
see_sequence (numbered value at) sequence now =
    if observe_sequence_is_fresh (some (value, at)) sequence now
    then (numbered sequence now, accepted false false (some sequence))
    else (numbered value at, dropped)
see_sequence _ sequence now = (numbered sequence now, accepted true false (some sequence))

unfoldable pub see_plain : ObserveState → ℕ → ObserveState × Recorded
see_plain silent mid = (probationary mid, probation)
see_plain (probationary m) mid =
    if m == mid then (probationary m, dropped) else (legacy m mid, accepted false true none)
see_plain (legacy i m) mid =
    if m == mid then (legacy i m, dropped) else (legacy i mid, accepted false true none)
see_plain (numbered value at) mid = (numbered value at, dropped)

-- A message with these Observe values.
unfoldable pub see : ObserveState → ℕ → List Bytes → ℕ → ObserveState × Recorded
see s mid [] now = see_plain s mid
see s mid (value ∷ []) now =
    if ltb 3 (length value) then (s, dropped) else see_sequence s (from_bytes value) now
see s mid (value ∷ _ ∷ _) now = (s, dropped)

abbrev plain_of : ObserveState → Option ℕ
plain_of silent = none
plain_of (probationary m) = some m
plain_of (legacy i m) = some i
plain_of (numbered value at) = none

abbrev legacy_of : ObserveState → Option (Unit {0})
legacy_of (legacy i m) = some tt
legacy_of _ = none

abbrev legacy_mid_of : ObserveState → Option ℕ
legacy_mid_of (legacy i m) = some m
legacy_mid_of _ = none

abbrev sequence_of : ObserveState → Option (ℕ × ℕ)
sequence_of (numbered value at) = some (value, at)
sequence_of _ = none

module _ {Token : Type 0} ⦃key : Eq Token⦄ where
  get-set_same :
      {A : Type 0} (d : List (Token × A)) (t : Token) (a : A) → get (set d t a) t ≡ some a
  get-set_same d t a = get-set d t a t ∙ rw ((key.equal_iff t t).1 refl) refl

  get-remove_same : {A : Type 0} (d : List (Token × A)) (t : Token) → get (remove d t) t ≡ none
  get-remove_same d t = get-remove d t t ∙ rw ((key.equal_iff t t).1 refl) refl

module _ {Token Href Query : Type 0} ⦃key : Eq Token⦄ where
  -- The indices of the token stand for the state.
  pub record Represents (r : Relations Token Href Query) (tok : Token) (s : ObserveState)
      : Type 0 where
    pub plain_is : get r.plain_response_mids tok ≡ plain_of s
    pub legacy_is : get r.legacy_tokens tok ≡ legacy_of s
    pub legacy_mid_is : get r.legacy_mids tok ≡ legacy_mid_of s
    pub sequence_is : get r.sequences tok ≡ sequence_of s

  -- The same verdict, and indices that stand for the state.
  abbrev pub Agrees :
      Relations Token Href Query × Recorded → Token → ObserveState × Recorded → Type 0
  Agrees (r, recorded) tok (s, seen) = Represents r tok s × (recorded ≡ seen)

  -- The indices after a fresh Observe value.
  abbrev numbered_in : Relations Token Href Query → Token → ℕ → ℕ → Relations Token Href Query
  numbered_in r tok sequence now = record r {
    sequences = set r.sequences tok (sequence, now);
    plain_response_mids = remove r.plain_response_mids tok;
    legacy_tokens = remove r.legacy_tokens tok;
    legacy_mids = remove r.legacy_mids tok;
  }

  numbered_in-Represents :
      (r : Relations Token Href Query) (tok : Token) (sequence now : ℕ)
      → Represents (numbered_in r tok sequence now) tok (numbered sequence now)
  numbered_in-Represents r tok sequence now = record {
    plain_is = get-remove_same r.plain_response_mids tok;
    legacy_is = get-remove_same r.legacy_tokens tok;
    legacy_mid_is = get-remove_same r.legacy_mids tok;
    sequence_is = get-set_same r.sequences tok (sequence, now);
  }

  record_sequence-first :
      (r : Relations Token Href Query) (tok : Token) (sequence now : ℕ)
      → get r.sequences tok ≡ none
      → Agrees
          (record_sequence r tok sequence now)
          tok
          (numbered sequence now, accepted true false (some sequence))
  unfolding record_sequence observe_sequence_is_fresh
  record_sequence-first r tok sequence now h =
      simp h (numbered_in-Represents r tok sequence now, refl)

  record_sequence-see :
      (r : Relations Token Href Query) (tok : Token) (s : ObserveState) (sequence now : ℕ)
      → Represents r tok s
      → Agrees (record_sequence r tok sequence now) tok (see_sequence s sequence now)
  unfolding record_sequence see_sequence
  record_sequence-see r tok silent sequence now h =
      record_sequence-first r tok sequence now h.sequence_is
  record_sequence-see r tok (probationary m) sequence now h =
      record_sequence-first r tok sequence now h.sequence_is
  record_sequence-see r tok (legacy i m) sequence now h =
      record_sequence-first r tok sequence now h.sequence_is
  record_sequence-see r tok (numbered value at) sequence now h =
      elim (Bool-cases (observe_sequence_is_fresh (some (value, at)) sequence now)) [
        | inl fresh ↦ simp (h.sequence_is, fresh) (numbered_in-Represents r tok sequence now, refl)
        | inr old ↦ simp (h.sequence_is, old) (h, refl)
      ]

  record_plain-see :
      (r : Relations Token Href Query) (tok : Token) (s : ObserveState) (mid : ℕ)
      → Represents r tok s
      → Agrees (record_plain r tok mid) tok (see_plain s mid)
  unfolding record_plain see_plain record_probation
  record_plain-see r tok silent mid h =
      simp (h.sequence_is, h.legacy_is, h.plain_is)
        (
          record {
            plain_is = get-set_same r.plain_response_mids tok mid;
            legacy_is = h.legacy_is;
            legacy_mid_is = h.legacy_mid_is;
            sequence_is = h.sequence_is;
          },
          refl,
        )
  record_plain-see r tok (probationary m) mid h = elim (Bool-cases (m == mid)) [
    | inl again ↦ simp (h.sequence_is, h.legacy_is, h.plain_is, again) (h, refl)
    | inr other ↦
        simp (h.sequence_is, h.legacy_is, h.plain_is, other)
          (
            record {
              plain_is = h.plain_is;
              legacy_is = get-set_same r.legacy_tokens tok tt;
              legacy_mid_is = get-set_same r.legacy_mids tok mid;
              sequence_is = h.sequence_is;
            },
            refl,
          )
  ]
  record_plain-see r tok (legacy i m) mid h = elim (Bool-cases (m == mid)) [
    | inl again ↦ simp (h.sequence_is, h.legacy_is, h.legacy_mid_is, again) (h, refl)
    | inr other ↦
        simp (h.sequence_is, h.legacy_is, h.legacy_mid_is, other)
          (
            record {
              plain_is = h.plain_is;
              legacy_is = h.legacy_is;
              legacy_mid_is = get-set_same r.legacy_mids tok mid;
              sequence_is = h.sequence_is;
            },
            refl,
          )
  ]
  record_plain-see r tok (numbered value at) mid h = simp h.sequence_is (h, refl)

  pub record_notification-Agrees :
      (r : Relations Token Href Query) (tok : Token) (s : ObserveState) (mid : ℕ)
      (values : List Bytes) (now : ℕ)
      → Represents r tok s
      → Agrees (record_notification r tok mid values now) tok (see s mid values now)
  unfolding record_notification see
  record_notification-Agrees r tok s mid [] now h = record_plain-see r tok s mid h
  record_notification-Agrees r tok s mid (value ∷ []) now h =
      elim (Bool-cases (ltb 3 (length value))) [
        | inl long ↦ rw long (h, refl)
        | inr fits ↦ rw fits (record_sequence-see r tok s (from_bytes value) now h)
      ]
  record_notification-Agrees r tok s mid (value ∷ _ ∷ _) now h = (h, refl)
