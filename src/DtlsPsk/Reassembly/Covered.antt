-- ===== src/DtlsPsk/Reassembly/Covered.antt =====
-- A message whose fragments arrive in any order.
use smart_things_local.Prelude.{
  ℕ, ◌+◌, ◌≤◌, ◌<◌, ◌≡◌, ◌⊎◌, inl, inr, refl, sym, ap, ◌∙◌, Bool, true, false, ◌&&◌, List, [], ◌∷◌,
  ◌++◌, append-nil, none, some, arith, length, take, drop, take_all, length-take, length-drop, All,
  leb, ◌==◌, if◌then◌else◌, Bool-cases,
}
use smart_things_local.Prelude.Bytes.{Bytes}
use smart_things_local.Ocf.Dict.{Eq, Dict, get, set, remove}
use smart_things_local.Ocf.Dict.Laws.{get-set}
use smart_things_local.DtlsPsk.Transform.{repeat}
use smart_things_local.DtlsPsk.Transform.Padding.{length-repeat}
use smart_things_local.DtlsPsk.Reassembly.{
  Entry, Assembled, failed, waiting, complete, splice, all_seen, new_entry, max_pending_messages,
  put_fragment, find_entry, reassemble,
}
use smart_things_local.DtlsPsk.Reassembly.Spans.{
  Span, all_covered, all_covered_same, all_covered_more, all_covered_whole, none_covered, moved,
}
use smart_things_local.DtlsPsk.Reassembly.Splice.{
  Holds, Holds-length, new-Holds, all_seen-Holds, whole-Holds, splice-overwrite, overwrite-Holds,
}

-- The bytes of a message in a span.
abbrev pub slice : Bytes → Span → Bytes
slice message (off, size) = take size (drop off message)

abbrev pub Within : Bytes → Span → Type 0
Within message (off, size) = off + size ≤ length message

length-slice :
    (message : Bytes) (off size : ℕ)
    → off + size ≤ length message
    → length (slice message (off, size)) ≡ size
length-slice message off size h =
    omega (arith, length-take size (drop off message), length-drop off message)

splice-Holds :
    (spans : List Span)
    → (message buffer seen : Bytes) → (off size : ℕ) → Holds spans 0 message buffer seen
    → off + size ≤ length message
    → Holds
        ((off, size) ∷ spans)
        0
        message
        (splice buffer off (slice message (off, size)))
        (splice seen off (repeat (length (slice message (off, size))) 1))
splice-Holds spans message buffer seen off size h p =
    let body = slice message (off, size) in
    let size_is = length-slice message off size p in
    let (x, y) = Holds-length h in
    let first = splice-overwrite buffer off body (omega arith) in
    let marks = repeat (length body) 1 in
    let second = splice-overwrite seen off marks (omega (arith, length-repeat (length body) 1)) in
    rw first (rw second (rw size_is (overwrite-Holds off size off h (omega arith) p)))

-- The answer of a call, or of the calls after it where more is to come.
unfoldable pub settle : Assembled → Assembled → Assembled
settle waiting later = later
settle failed later = failed
settle (complete b) later = complete b

module _ ⦃key : Eq ℕ⦄ where
  get-set_own : (d : Dict ℕ Entry) (k : ℕ) (v : Entry) → get (set d k v) k ≡ some v
  get-set_own d k v =
      let own : key.equal k k ≡ true = (key.equal_iff k k).1 refl in
      get-set d k v k ∙ ap (λ (c : Bool). if c then some v else get d k) own

  -- What is kept of the message, after the spans that have arrived.
  abbrev Tracks : Dict ℕ Entry → ℕ → Bytes → List Span → Type 0
  Tracks pending msg_seq message spans =
      (entry : Entry) × (get pending msg_seq ≡ some entry)
      × (entry.length_of ≡ length message)
      × Holds spans 0 message entry.buffer entry.seen

  -- Either nothing has arrived, and there is room, or the entry tracks it.
  abbrev Known : Dict ℕ Entry → ℕ → Bytes → List Span → Type 0
  Known pending msg_seq message spans =
      ((spans ≡ []) × (get pending msg_seq ≡ none) × (length pending < max_pending_messages))
      ⊎ Tracks pending msg_seq message spans

  abbrev Outcome : ℕ → Bytes → List Span → Dict ℕ Entry × Assembled → Type 0
  Outcome msg_seq message spans (pending, r) =
      ((r ≡ complete message) × (all_covered spans 0 (length message) ≡ true))
      ⊎ ((r ≡ waiting)
          × (all_covered spans 0 (length message) ≡ false)
          × Tracks pending msg_seq message spans)

  put_fragment-Outcome :
      (pending : Dict ℕ Entry)
      → (msg_seq : ℕ) → (message : Bytes) → (spans : List Span) → (entry : Entry) → (off size : ℕ)
      → entry.length_of ≡ length message
      → Holds spans 0 message entry.buffer entry.seen
      → off + size ≤ length message
      → Outcome msg_seq message
          ((off, size) ∷ spans)
          (put_fragment pending msg_seq entry off (slice message (off, size)))
  unfolding put_fragment
  put_fragment-Outcome pending msg_seq message spans entry off size e h p =
      let body = slice message (off, size) in
      let kept = splice-Holds spans message entry.buffer entry.seen off size h p in
      go (all_seen (splice entry.seen off (repeat (length body) 1))) (sym (all_seen-Holds kept))
        (whole-Holds kept) kept
    where
      go :
          (done : Bool)
          → all_covered ((off, size) ∷ spans) 0 (length message) ≡ done
          → (all_covered ((off, size) ∷ spans) 0 (length message) ≡ true
              → splice entry.buffer off (slice message (off, size)) ≡ message)
          → Holds
              ((off, size) ∷ spans)
              0
              message
              (splice entry.buffer off (slice message (off, size)))
              (splice entry.seen off (repeat (length (slice message (off, size))) 1))
          → Outcome msg_seq message ((off, size) ∷ spans) (
              if done
              then (
                remove pending msg_seq,
                complete (splice entry.buffer off (slice message (off, size))),
              )
              else (
                set pending msg_seq (record {
                  length_of = entry.length_of;
                  buffer = splice entry.buffer off (slice message (off, size));
                  seen = splice entry.seen off (repeat (length (slice message (off, size))) 1);
                }),
                waiting,
              ))
      go true c whole kept = inl (ap complete (whole c), c)
      go false c whole kept = inr (refl, c, (_, get-set_own pending msg_seq _, e, kept))

  find_entry-Outcome :
      (pending : Dict ℕ Entry)
      → (msg_seq : ℕ) → (message : Bytes) → (spans : List Span) → (off size : ℕ)
      → Known pending msg_seq message spans
      → off + size ≤ length message
      → Outcome msg_seq message ((off, size) ∷ spans) (
          find_entry pending msg_seq
            (length message)
            off
            (slice message (off, size))
            (get pending msg_seq))
  unfolding find_entry
  find_entry-Outcome pending msg_seq message spans off size (inl (start, fresh, room)) p =
      let free : leb max_pending_messages (length pending) ≡ false = ground arith in
      rw fresh (
        rw free (
          rw start (
            put_fragment-Outcome pending msg_seq message [] (new_entry (length message)) off size
              refl (new-Holds message 0) p)))
  find_entry-Outcome pending msg_seq message spans off size (inr (entry, found, e, h)) p =
      let same : (entry.length_of == length message) ≡ true = ground arith in
      rw found (rw same (put_fragment-Outcome pending msg_seq message spans entry off size e h p))

  reassemble-Outcome :
      (pending : Dict ℕ Entry)
      → (msg_seq : ℕ) → (message : Bytes) → (spans : List Span) → (off size : ℕ)
      → Known pending msg_seq message spans
      → off + size ≤ length message
      → Outcome msg_seq message
          ((off, size) ∷ spans)
          (reassemble pending msg_seq (length message) off (slice message (off, size)))
  unfolding reassemble
  reassemble-Outcome pending msg_seq message spans off size k p =
      elim (Bool-cases (off == 0 && length (slice message (off, size)) == length message)) [
        | inl t ↦
            let size_is = length-slice message off size p in
            let first : off ≡ 0 = ground arith in
            let full : size ≡ length message = ground arith in
            let body : slice message (off, size) ≡ message =
              ap (λ (o : ℕ). take size (drop o message)) first
              ∙ take_all size message (omega arith) in
            inl (
              rw t (ap complete body),
              ap (λ (o : ℕ). all_covered ((o, size) ∷ spans) 0 (length message)) first
                  ∙ all_covered_whole spans size 0 (length message) (omega arith),
            )
        | inr f ↦ rw f (find_entry-Outcome pending msg_seq message spans off size k p)
      ]

  -- The fragments of a message as they arrive, up to the call that ends otherwise than waiting.
  unfoldable pub reassemble_each : Dict ℕ Entry → ℕ → Bytes → List Span → Assembled
  reassemble_each pending msg_seq message [] = waiting
  reassemble_each pending msg_seq message ((off, size) ∷ spans) =
      let (rest, r) = reassemble pending msg_seq (length message) off (slice message (off, size)) in
      let later = reassemble_each rest msg_seq message spans in settle r later

  reassemble_each-Known :
      (pending : Dict ℕ Entry)
      → (msg_seq : ℕ) → (message : Bytes) → (before spans : List Span)
      → Known pending msg_seq message before
      → all_covered before 0 (length message) ≡ false
      → All (Within message) spans
      → reassemble_each pending msg_seq message spans
        ≡ (if all_covered (before ++ spans) 0 (length message) then complete message else waiting)
  unfolding reassemble_each settle
  reassemble_each-Known pending msg_seq message before [] k open_yet w =
      rw (append-nil before) (rw open_yet refl)
  reassemble_each-Known pending msg_seq message before ((off, size) ∷ spans) k open_yet (p, w) =
      let now = (off, size) ∷ before in
      let (rest, r) = reassemble pending msg_seq (length message) off (slice message (off, size)) in
      let order : all_covered (now ++ spans) 0 (length message)
          ≡ all_covered (before ++ ((off, size) ∷ spans)) 0 (length message) =
        all_covered_same (now ++ spans) (before ++ ((off, size) ∷ spans))
          (moved before spans (off, size)) 0 (length message) in
      elim (reassemble-Outcome pending msg_seq message before off size k p) [
        | inl (done, c) ↦
            let more = all_covered_more now spans 0 (length message) c in
            ap (λ (a : Assembled). settle a (reassemble_each rest msg_seq message spans)) done
            ∙ ap (λ (b : Bool). if b then complete message else waiting) (sym more ∙ order)
        | inr (wait, c, tracks) ↦
            ap (λ (a : Assembled). settle a (reassemble_each rest msg_seq message spans)) wait
            ∙ reassemble_each-Known rest msg_seq message now spans (inr tracks) c w
            ∙ ap (λ (b : Bool). if b then complete message else waiting) order
      ]

  -- A message that is not empty, of which nothing is kept, with room for one more: its fragments are fed in any order,
  -- overlapping or repeated. The message comes back once they cover it, and until then more is waited for.
  pub reassemble_each-covered :
      (pending : Dict ℕ Entry)
      → (msg_seq : ℕ) → (message : Bytes) → (spans : List Span) → 1 ≤ length message
      → get pending msg_seq ≡ none
      → length pending < max_pending_messages
      → All (Within message) spans
      → reassemble_each pending msg_seq message spans
        ≡ (if all_covered spans 0 (length message) then complete message else waiting)
  reassemble_each-covered pending msg_seq message spans some_byte fresh room w =
      reassemble_each-Known pending msg_seq message [] spans (inl (refl, fresh, room))
        (none_covered (length message) some_byte) w
