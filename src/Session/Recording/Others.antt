-- ===== src/Session/Recording/Others.antt =====
-- Recording a notification leaves every other token alone, and a duplicate is dropped.
use smart_things_local.Prelude.{
  ℕ, ◌+◌, ◌≤◌, ◌≡◌, ◌≢◌, refl, ◌∙◌, false, List, [], ◌∷◌, Option, none, some, arith, ltb, ◌==◌,
  length, Bool-cases, Option-cases, inl, inr,
}
use smart_things_local.Prelude.Bytes.{Bytes, from_bytes}
use smart_things_local.Ocf.Dict.{Eq, get, set, remove}
use smart_things_local.Ocf.Dict.Laws.{get-set, get-remove}
use smart_things_local.Session.Observe.{observe_sequence_is_fresh, sequence_delta}
use smart_things_local.Session.Relations.{Relations, has}
use smart_things_local.Session.Recording.{
  dropped, is_mid, record_sequence, record_probation, record_plain, record_notification,
}
use smart_things_local.Session.Recording.Automaton.{
  ObserveState, silent, probationary, legacy, numbered, see_sequence, see_plain, see, Represents,
  Agrees, record_notification-Agrees,
}

module _ {Token : Type 0} ⦃key : Eq Token⦄ where
  get-set_other :
      {A : Type 0} (d : List (Token × A)) (k t : Token) (a : A)
      → key.equal t k ≡ false
      → get (set d k a) t ≡ get d t
  get-set_other d k t a other = get-set d k a t ∙ rw other refl

  get-remove_other :
      {A : Type 0} (d : List (Token × A)) (k t : Token)
      → key.equal t k ≡ false
      → get (remove d k) t ≡ get d t
  get-remove_other d k t other = get-remove d k t ∙ rw other refl

module _ {Token Href Query : Type 0} ⦃key : Eq Token⦄ where
  -- The indices of the token are as they were.
  record Kept (r r' : Relations Token Href Query) (t : Token) : Type 0 where
    plain_kept : get r'.plain_response_mids t ≡ get r.plain_response_mids t
    legacy_kept : get r'.legacy_tokens t ≡ get r.legacy_tokens t
    legacy_mid_kept : get r'.legacy_mids t ≡ get r.legacy_mids t
    sequence_kept : get r'.sequences t ≡ get r.sequences t

  unmoved : (r : Relations Token Href Query) (t : Token) → Kept r r t
  unmoved r t = record {
    plain_kept = refl;
    legacy_kept = refl;
    legacy_mid_kept = refl;
    sequence_kept = refl;
  }

  Kept-Represents :
      (r r' : Relations Token Href Query) (t : Token) (s : ObserveState)
      → Kept r r' t
      → Represents r t s
      → Represents r' t s
  Kept-Represents r r' t s k h = record {
    plain_is = k.plain_kept ∙ h.plain_is;
    legacy_is = k.legacy_kept ∙ h.legacy_is;
    legacy_mid_is = k.legacy_mid_kept ∙ h.legacy_mid_is;
    sequence_is = k.sequence_kept ∙ h.sequence_is;
  }

  module _ (r : Relations Token Href Query) (tok t : Token) (other : key.equal t tok ≡ false) where
    record_sequence-Kept : (sequence now : ℕ) → Kept r (record_sequence r tok sequence now).0 t
    unfolding record_sequence
    record_sequence-Kept sequence now =
        elim (Bool-cases (observe_sequence_is_fresh (get r.sequences tok) sequence now)) [
          | inl fresh ↦ simp fresh (record {
            plain_kept = get-remove_other r.plain_response_mids tok t other;
            legacy_kept = get-remove_other r.legacy_tokens tok t other;
            legacy_mid_kept = get-remove_other r.legacy_mids tok t other;
            sequence_kept = get-set_other r.sequences tok t (sequence, now) other;
          })
          | inr old ↦ simp old (unmoved r t)
        ]

    record_probation-Kept :
        (mid : ℕ) (initial : Option ℕ) → Kept r (record_probation r tok mid initial).0 t
    unfolding record_probation
    record_probation-Kept mid none = record {
      plain_kept = get-set_other r.plain_response_mids tok t mid other;
      legacy_kept = refl;
      legacy_mid_kept = refl;
      sequence_kept = refl;
    }
    record_probation-Kept mid (some initial) = elim (Bool-cases (initial == mid)) [
      | inl again ↦ simp again (unmoved r t)
      | inr apart ↦ simp apart (record {
        plain_kept = refl;
        legacy_kept = get-set_other r.legacy_tokens tok t tt other;
        legacy_mid_kept = get-set_other r.legacy_mids tok t mid other;
        sequence_kept = refl;
      })
    ]

    record_plain-Kept : (mid : ℕ) → Kept r (record_plain r tok mid).0 t
    unfolding record_plain
    record_plain-Kept mid = elim (Bool-cases (has (get r.sequences tok))) [
      | inl seen ↦ simp seen (unmoved r t)
      | inr unseen ↦ elim (Bool-cases (has (get r.legacy_tokens tok))) [
        | inr normal ↦
            simp (unseen, normal) (record_probation-Kept mid (get r.plain_response_mids tok))
        | inl legacy_form ↦ elim (Bool-cases (is_mid (get r.legacy_mids tok) mid)) [
          | inl again ↦ simp (unseen, legacy_form, again) (unmoved r t)
          | inr apart ↦
              simp (unseen, legacy_form, apart)
                (record {
                  plain_kept = refl;
                  legacy_kept = refl;
                  legacy_mid_kept = get-set_other r.legacy_mids tok t mid other;
                  sequence_kept = refl;
                })
        ]
      ]
    ]

    record_notification-Kept :
        (mid : ℕ) (values : List Bytes) (now : ℕ)
        → Kept r (record_notification r tok mid values now).0 t
    unfolding record_notification
    record_notification-Kept mid [] now = record_plain-Kept mid
    record_notification-Kept mid (value ∷ []) now = elim (Bool-cases (ltb 3 (length value))) [
      | inl long ↦ rw long (unmoved r t)
      | inr fits ↦ rw fits (record_sequence-Kept (from_bytes value) now)
    ]
    record_notification-Kept mid (value ∷ _ ∷ _) now = unmoved r t

  -- The four indices of a token move as the automaton does, with the same verdict on the message, and those of any
  -- other token stand for what they stood for.
  pub record_notification-see :
      (r : Relations Token Href Query) (tok : Token) (s : ObserveState) (mid : ℕ)
      (values : List Bytes) (now : ℕ)
      → Represents r tok s
      → Agrees (record_notification r tok mid values now) tok (see s mid values now)
        × ((t : Token) (other : ObserveState)
            → key.equal t tok ≡ false
            → Represents r t other
            → Represents (record_notification r tok mid values now).0 t other)
  record_notification-see r tok s mid values now h = (
    record_notification-Agrees r tok s mid values now h,
    λ t other apart k.
        Kept-Represents r _ t other (record_notification-Kept r tok t apart mid values now) k,
  )

-- The same Observe value again, soon after it was recorded.
fresh_again :
    (value now later : ℕ)
    → now ≤ later
    → later ≤ now + 128
    → observe_sequence_is_fresh (some (value, now)) value later ≡ false
unfolding observe_sequence_is_fresh sequence_delta
fresh_again value now later h k = ground arith

see_sequence_again :
    (s : ObserveState) (value now later : ℕ)
    → now ≤ later
    → later ≤ now + 128
    → (see_sequence s value now).1 ≢ dropped
    → (see_sequence (see_sequence s value now).0 value later).1 ≡ dropped
unfolding see_sequence
see_sequence_again silent value now later h k e = rw (fresh_again value now later h k) refl
see_sequence_again (probationary m) value now later h k e =
    rw (fresh_again value now later h k) refl
see_sequence_again (legacy i m) value now later h k e = rw (fresh_again value now later h k) refl
see_sequence_again (numbered last at) value now later h k e =
    elim (Bool-cases (observe_sequence_is_fresh (some (last, at)) value now)) [
      | inl fresh ↦ rw (fresh, fresh_again value now later h k) refl
      | inr old ↦ absurd (e (rw old refl))
    ]

see_plain_again : (s : ObserveState) (mid : ℕ) → (see_plain (see_plain s mid).0 mid).1 ≡ dropped
unfolding see_plain
see_plain_again silent mid = ground arith
see_plain_again (probationary m) mid = ground arith
see_plain_again (legacy i m) mid = ground arith
see_plain_again (numbered value at) mid = refl

see_again :
    (s : ObserveState) (mid : ℕ) (values : List Bytes) (now later : ℕ)
    → now ≤ later
    → later ≤ now + 128
    → (see s mid values now).1 ≢ dropped
    → (see (see s mid values now).0 mid values later).1 ≡ dropped
unfolding see
see_again s mid [] now later h k e = see_plain_again s mid
see_again s mid (v ∷ []) now later h k e = elim (Bool-cases (ltb 3 (length v))) [
  | inl long ↦ rw long refl
  | inr fits ↦ rw fits (see_sequence_again s (from_bytes v) now later h k (rw fits at e))
]
see_again s mid (v ∷ w ∷ vs) now later h k e = refl

module _ {Token Href Query : Type 0} ⦃key : Eq Token⦄ where
  -- What is dropped leaves the indices as they are.
  record_plain-dropped :
      (r : Relations Token Href Query) (tok : Token) (mid : ℕ)
      → (record_plain r tok mid).1 ≡ dropped
      → record_plain r tok mid ≡ (r, dropped)
  unfolding record_plain record_probation
  record_plain-dropped r tok mid e = elim (Option-cases (get r.plain_response_mids tok)) [
    | inl first ↦ simp first (ground (arith, simp first at e))
    | inr (m, seen) ↦ simp seen (ground (arith, simp seen at e))
  ]

  record_notification-dropped :
      (r : Relations Token Href Query) (tok : Token) (mid : ℕ) (values : List Bytes) (now : ℕ)
      → (record_notification r tok mid values now).1 ≡ dropped
      → record_notification r tok mid values now ≡ (r, dropped)
  unfolding record_notification record_sequence
  record_notification-dropped r tok mid [] now e = record_plain-dropped r tok mid e
  record_notification-dropped r tok mid (v ∷ []) now e = ground arith
  record_notification-dropped r tok mid (v ∷ w ∷ vs) now e = refl

  -- A message that was recorded: the same message again, within 128 seconds, is dropped and changes nothing.
  pub record_notification_again :
      (r : Relations Token Href Query) (tok : Token) (s : ObserveState) (mid : ℕ)
      (values : List Bytes) (now later : ℕ)
      → Represents r tok s
      → now ≤ later
      → later ≤ now + 128
      → (record_notification r tok mid values now).1 ≢ dropped
      → record_notification (record_notification r tok mid values now).0 tok mid values later
        ≡ ((record_notification r tok mid values now).0, dropped)
  record_notification_again r tok s mid values now later h before near recorded =
      let (shown, same) = record_notification-Agrees r tok s mid values now h in
      let (_, same') =
        record_notification-Agrees _ tok (see s mid values now).0 mid values later shown in
      record_notification-dropped _ tok mid values later
        (same' ∙ see_again s mid values now later before near (rw same at recorded))
