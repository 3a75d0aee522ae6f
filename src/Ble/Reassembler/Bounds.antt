-- ===== src/Ble/Reassembler/Bounds.antt =====
-- What a reassembler holds and returns, whatever it is fed.
use smart_things_local.Prelude.{
  ℕ, ◌-◌, ◌≤◌, ◌<◌, ◌≡◌, ◌⊎◌, inl, inr, refl, ap, sym, ◌∙◌, true, false, List, [], ◌∷◌, ◌++◌,
  Option, none, some, arith, length, length-append, take, Option-cases, drop, min, ltb, ◌==◌,
  Bool-cases,
}
use smart_things_local.Prelude.Bytes.{Bytes, from_bytes}
use smart_things_local.Errors.{Error, Result, ok, err, ble_codec, interleaved_frame, Result-cases}
use smart_things_local.Ble.Frame.{
  BleOcfHeader, BleOcfPdu, coerce_bytes, decode_header, validate_mtu, validate_max_pdu_size,
}
use smart_things_local.Ble.Reassembler.{
  Reassembler, Fed, idle, init, feed, feed_frame, feed_header, in_progress, is_some, settle,
  buffered_bytes, start_frame, start_payload, continue_frame, continue_payload, is_foreign,
}

-- No more is held than a PDU in progress lacks its end, and no PDU is longer than the bound.
abbrev Holds : Option BleOcfHeader → ℕ → ℕ → ℕ → Type 0
Holds none held expected bound = held ≡ 0
Holds (some h) held expected bound = (held < expected) × (expected ≤ bound)

-- The bounds of the constructor, and what is held.
pub record IsBounded (mtu max_pdu_size : ℕ) (r : Reassembler) : Type 0 where
  pub mtu_kept : r.mtu ≡ mtu
  pub bound_kept : r.max_pdu_size ≡ max_pdu_size
  pub holds : Holds r.header (length r.buffer) r.expected_length max_pdu_size

-- An error is one of the two of the codec and leaves no PDU in progress; a PDU that is returned is not empty and within
-- the bound, and leaves none in progress; and nothing is returned while one is in progress.
abbrev pub Answers : ℕ → Reassembler → Result (Option BleOcfPdu) → Type 0
Answers max_pdu_size r (err e) =
    ((e ≡ ble_codec) ⊎ (e ≡ interleaved_frame)) × (in_progress r ≡ false)
Answers max_pdu_size r (ok none) = in_progress r ≡ true
Answers max_pdu_size r (ok (some p)) =
    (1 ≤ length p.pdu) × (length p.pdu ≤ max_pdu_size) × (in_progress r ≡ false)

-- The same of a call within `feed`.
abbrev Returns : ℕ → ℕ → Fed → Type 0
Returns mtu max_pdu_size (err e) = (e ≡ ble_codec) ⊎ (e ≡ interleaved_frame)
Returns mtu max_pdu_size (ok (r, o)) = IsBounded mtu max_pdu_size r × Answers max_pdu_size r (ok o)

-- The header is read, or refused with the error of the codec.
decode_header-cases :
    (f : Bytes)
    → (decode_header f ≡ err ble_codec) ⊎ ((h : BleOcfHeader) × (decode_header f ≡ ok h))
unfolding decode_header
decode_header-cases [] = inl refl
decode_header-cases (x ∷ []) = inl refl
decode_header-cases (x ∷ y ∷ f) = elim (Result-cases (decode_header (x ∷ y ∷ f))) [
  | inl (h, read) ↦ inr (h, read)
  | inr (e, refused) ↦
      let same : e ≡ ble_codec = ground arith in inl (refused ∙ ap (λ (x : Error). err x) same)
]

module _ (mtu max_pdu_size : ℕ) where
  start_payload-Returns :
      (r : Reassembler) (h : BleOcfHeader) (expected : ℕ) (payload : Bytes)
      → IsBounded mtu max_pdu_size r
      → r.header ≡ none
      → 1 ≤ expected
      → expected ≤ max_pdu_size
      → Returns mtu max_pdu_size (start_payload r h expected payload)
  unfolding start_payload in_progress
  start_payload-Returns r h expected payload b none_held some_expected fits =
      let empty : length r.buffer ≡ 0 = simp none_held at b.holds in
      let held = length-append r.buffer payload in
      elim (Bool-cases (length payload == min expected (r.mtu - 6))) [
        | inr wrong ↦ rw wrong (inl refl)
        | inl right ↦ elim (Bool-cases (length payload == expected)) [
          | inl whole ↦ rw (right, whole) (b, (ground arith, ground arith, rw none_held refl))
          | inr part ↦
              rw (right, part)
                (
                  record {
                    mtu_kept = b.mtu_kept;
                    bound_kept = b.bound_kept;
                    holds = (ground arith, fits);
                  },
                  refl,
                )
        ]
      ]

  continue_payload-Returns :
      (r : Reassembler) (h active : BleOcfHeader) (payload : Bytes)
      → IsBounded mtu max_pdu_size r
      → r.header ≡ some h
      → Returns mtu max_pdu_size (continue_payload r active payload)
  unfolding continue_payload in_progress
  continue_payload-Returns r h active payload b held =
      let (less, fits) : (length r.buffer < r.expected_length)
          × (r.expected_length ≤ max_pdu_size) =
        simp held at b.holds in
      let size = length-append r.buffer payload in
      elim (Bool-cases (length payload == min (r.expected_length - length r.buffer) (r.mtu - 2))) [
        | inr wrong ↦ rw wrong (inl refl)
        | inl right ↦ elim (Bool-cases (ltb (length (r.buffer ++ payload)) r.expected_length)) [
          | inl more ↦
              rw (right, more)
                (
                  record {
                    mtu_kept = b.mtu_kept;
                    bound_kept = b.bound_kept;
                    holds = rw held (ground arith, fits);
                  },
                  rw held refl,
                )
          | inr done ↦
              rw (right, done)
                (
                  record { mtu_kept = b.mtu_kept; bound_kept = b.bound_kept; holds = refl },
                  (ground arith, ground arith, refl),
                )
        ]
      ]

  start_frame-Returns :
      (r : Reassembler) (f : Bytes) (h : BleOcfHeader)
      → IsBounded mtu max_pdu_size r
      → r.header ≡ none
      → Returns mtu max_pdu_size (start_frame r f h)
  unfolding start_frame
  start_frame-Returns r f h b none_held =
      let expected = from_bytes (take 4 (drop 2 f)) in
      elim (Bool-cases (ltb (length f) 6)) [
        | inl short ↦ rw short (inl refl)
        | inr long ↦ elim (Bool-cases (expected == 0)) [
          | inl nothing ↦ rw (long, nothing) (inl refl)
          | inr something ↦ elim (Bool-cases (ltb r.max_pdu_size expected)) [
            | inl beyond ↦ rw (long, something, beyond) (inl refl)
            | inr within ↦
                rw (long, something, within)
                  (start_payload-Returns r h expected (drop 6 f) b none_held (ground arith)
                    (let kept = b.bound_kept in ground arith))
          ]
        ]
      ]

  continue_frame-Returns :
      (r : Reassembler) (f : Bytes) (h : BleOcfHeader) (o : Option BleOcfHeader)
      → IsBounded mtu max_pdu_size r
      → r.header ≡ o
      → Returns mtu max_pdu_size (continue_frame r f h o)
  unfolding continue_frame
  continue_frame-Returns r f h none b e = inl refl
  continue_frame-Returns r f h (some active) b e = elim (Bool-cases (is_foreign h active)) [
    | inl foreign ↦ rw foreign (inr refl)
    | inr own ↦ rw own (continue_payload-Returns r active active (drop 2 f) b e)
  ]

  feed_header-Returns :
      (r : Reassembler) (f : Bytes) (h : BleOcfHeader)
      → IsBounded mtu max_pdu_size r
      → Returns mtu max_pdu_size (feed_header r f h)
  unfolding feed_header in_progress
  feed_header-Returns r f h b = elim (Bool-cases h.start) [
    | inr continues ↦ simp continues (continue_frame-Returns r f h r.header b refl)
    | inl starts ↦ elim (Option-cases r.header) [
      | inl none_held ↦ simp (starts, none_held) (start_frame-Returns r f h b none_held)
      | inr (active, held) ↦ simp (starts, held) (inr refl)
    ]
  ]

  feed_frame-Returns :
      (r : Reassembler) (f : Bytes)
      → IsBounded mtu max_pdu_size r
      → Returns mtu max_pdu_size (feed_frame r f)
  unfolding feed_frame coerce_bytes
  feed_frame-Returns r f b = elim (Bool-cases (ltb r.mtu (length f))) [
    | inl long ↦ rw long (inl refl)
    | inr fits ↦ elim (decode_header-cases f) [
      | inl refused ↦ rw (fits, refused) (inl refl)
      | inr (h, read) ↦ rw (fits, read) (feed_header-Returns r f h b)
    ]
  ]

  settle-Answers :
      (r : Reassembler) (fed : Fed)
      → IsBounded mtu max_pdu_size r
      → Returns mtu max_pdu_size fed
      → IsBounded mtu max_pdu_size (settle r fed).0
        × Answers max_pdu_size (settle r fed).0 (settle r fed).1
  unfolding in_progress
  settle-Answers r (err e) b h =
      (record { mtu_kept = b.mtu_kept; bound_kept = b.bound_kept; holds = refl }, (h, refl))
  settle-Answers r (ok (r', o)) b h = h

  feed-Answers :
      (r : Reassembler) (f : Bytes)
      → IsBounded mtu max_pdu_size r
      → IsBounded mtu max_pdu_size (feed r f).0 × Answers max_pdu_size (feed r f).0 (feed r f).1
  unfolding feed
  feed-Answers r f b = settle-Answers r (feed_frame r f) b (feed_frame-Returns r f b)

  holds-fits :
      (r : Reassembler)
      → IsBounded mtu max_pdu_size r
      → 1 ≤ max_pdu_size
      → (buffered_bytes r < max_pdu_size) × (in_progress r ≡ false → buffered_bytes r ≡ 0)
  unfolding buffered_bytes in_progress
  holds-fits r b some_bound = elim (Option-cases r.header) [
    | inl none_held ↦
        let empty : length r.buffer ≡ 0 = simp none_held at b.holds in (omega arith, λ e. empty)
    | inr (h, held) ↦
        let (less, fits) : (length r.buffer < r.expected_length)
            × (r.expected_length ≤ max_pdu_size) =
          simp held at b.holds in
        let active : is_some r.header ≡ true = simp held refl in
        (omega arith, λ e. absurd (ground arith))
  ]

-- Frames fed in turn, whatever becomes of each.
unfoldable pub feed_each : Reassembler → List Bytes → Reassembler
feed_each r [] = r
feed_each r (f ∷ fs) = feed_each (feed r f).0 fs

feed_each-kept :
    (mtu max_pdu_size : ℕ) (r : Reassembler) (fs : List Bytes)
    → IsBounded mtu max_pdu_size r
    → IsBounded mtu max_pdu_size (feed_each r fs)
unfolding feed_each
feed_each-kept mtu max_pdu_size r [] b = b
feed_each-kept mtu max_pdu_size r (f ∷ fs) b =
    feed_each-kept mtu max_pdu_size (feed r f).0 fs (feed-Answers mtu max_pdu_size r f b).0

init-IsBounded :
    (mtu max_pdu_size : ℕ) (r : Reassembler)
    → init mtu max_pdu_size ≡ ok r
    → IsBounded mtu max_pdu_size r × (1 ≤ max_pdu_size)
unfolding init validate_mtu validate_max_pdu_size
init-IsBounded mtu max_pdu_size r e =
    let made : (idle mtu max_pdu_size ≡ r) × (1 ≤ max_pdu_size) = ground arith in
    (rw (sym made.0) (record { mtu_kept = refl; bound_kept = refl; holds = refl }), made.1)

-- Whatever a new reassembler has been fed, errors included: it holds fewer bytes than its bound, and none where no PDU is
-- in progress; and the answer to the next frame, whatever that is, is an error of the codec, after which no PDU is in
-- progress, a PDU that is not empty and within the bound, or nothing, while one is in progress.
pub feed_each-IsBounded :
    (mtu max_pdu_size : ℕ) (r : Reassembler) (fs : List Bytes) (f : Bytes)
    → init mtu max_pdu_size ≡ ok r
    → (buffered_bytes (feed_each r fs) < max_pdu_size)
      × (in_progress (feed_each r fs) ≡ false → buffered_bytes (feed_each r fs) ≡ 0)
      × Answers max_pdu_size (feed (feed_each r fs) f).0 (feed (feed_each r fs) f).1
feed_each-IsBounded mtu max_pdu_size r fs f made =
    let (b, some_bound) = init-IsBounded mtu max_pdu_size r made in
    let b' = feed_each-kept mtu max_pdu_size r fs b in
    let (less, empty) = holds-fits mtu max_pdu_size (feed_each r fs) b' some_bound in
    (less, empty, (feed-Answers mtu max_pdu_size (feed_each r fs) f b').1)
