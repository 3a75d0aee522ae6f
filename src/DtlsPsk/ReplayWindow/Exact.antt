-- ===== src/DtlsPsk/ReplayWindow/Exact.antt =====
-- What the window answers after a history of accepted sequence numbers.
use smart_things_local.Prelude.{
  ℕ, ◌+◌, ◌-◌, ◌^◌, ◌≤◌, ◌<◌, ◌≡◌, refl, ap, Bool, false, ◌||◌, List, [], ◌∷◌, Option, none, some,
  bit_or, max, min, arith, ltb, leb, if◌then◌else◌, Bool-cases, inl, inr,
}
use smart_things_local.DtlsPsk.ReplayWindow.{
  ReplayWindow, replay_window, new_window, is_replay_below, is_replay, slide, accept_above, accept,
}
use smart_things_local.DtlsPsk.ReplayWindow.Window.{
  was_accepted, Represents, slide-Represents, mark-Represents, first-Represents,
}

-- The window after a history, the newest number first.
unfoldable pub accept_all : List ℕ → ReplayWindow
accept_all [] = new_window
accept_all (seq ∷ history) = accept (accept_all history) seq

-- The highest number of a history.
unfoldable pub highest_of : List ℕ → Option ℕ
highest_of [] = none
highest_of (seq ∷ history) = elim (highest_of history) [
  | none ↦ some seq
  | some m ↦ some (max m seq)
]

-- As far behind the highest as the window is wide.
unfoldable pub is_stale : Option ℕ → ℕ → Bool
is_stale none seq = false
is_stale (some m) seq = leb (seq + replay_window) m

-- The window of a history that is not empty.
record Tracks (w : ReplayWindow) (m : ℕ) (history : List ℕ) : Type 0 where
  at_top : w.highest ≡ some m
  top_is : highest_of history ≡ some m
  window : Represents w.bitmap m history

slid :
    (b m seq : ℕ)
    → m < seq
    → accept_above b m seq ≡ record { bitmap = slide b (min (seq - m) 64); highest = some seq }
unfolding accept_above
slid b m seq h = ground arith

marked :
    (b m seq : ℕ)
    → seq ≤ m
    → accept_above b m seq ≡ record {
      bitmap = if ltb (m - seq) 64 then bit_or b (2 ^ (m - seq)) else b;
      highest = some m;
    }
unfolding accept_above
marked b m seq h =
    let f : ltb m seq ≡ false = ground arith in
    ap
      (λ (c : Bool).
        if c then record { bitmap = slide b (min (seq - m) 64); highest = some seq } else record {
          bitmap = if ltb (m - seq) 64 then bit_or b (2 ^ (m - seq)) else b;
          highest = some m;
        })
      f

max_above : (m seq : ℕ) → m < seq → max m seq ≡ seq
max_above m seq h = omega arith

max_below : (m seq : ℕ) → seq ≤ m → max m seq ≡ m
max_below m seq h = omega arith

highest_of_step :
    (seq : ℕ)
    → (history : List ℕ) → (m : ℕ) → highest_of history ≡ some m
    → highest_of (seq ∷ history) ≡ some (max m seq)
unfolding highest_of
highest_of_step seq history m top = rw top refl

accept_above-Tracks :
    (b m seq : ℕ)
    → (history : List ℕ) → Represents b m history
    → highest_of history ≡ some m
    → Tracks (accept_above b m seq) (max m seq) (seq ∷ history)
accept_above-Tracks b m seq history r top = elim (Bool-cases (ltb m seq)) [
  | inl t ↦
      let h : m < seq = ground arith in
      rw (slid b m seq h) (record {
        at_top = ap some (omega arith);
        top_is = highest_of_step seq history m top;
        window = rw (max_above m seq h) (slide-Represents b m seq history r h);
      })
  | inr f ↦
      let h : seq ≤ m = ground arith in
      rw (marked b m seq h) (record {
        at_top = ap some (omega arith);
        top_is = highest_of_step seq history m top;
        window = rw (max_below m seq h) (mark-Represents b m seq history r h);
      })
]

first-Tracks : (seq : ℕ) → Tracks (accept new_window seq) seq (seq ∷ [])
unfolding accept highest_of
first-Tracks seq = record { at_top = refl; top_is = refl; window = first-Represents seq }

accept-Tracks :
    (w : ReplayWindow)
    → (m seq : ℕ) → (history : List ℕ) → Tracks w m history
    → Tracks (accept w seq) (max m seq) (seq ∷ history)
unfolding accept
accept-Tracks w m seq history r =
    rw r.at_top (accept_above-Tracks w.bitmap m seq history r.window r.top_is)

accept_all-Tracks :
    (seq : ℕ) → (history : List ℕ) → (m : ℕ) × Tracks (accept_all (seq ∷ history)) m (seq ∷ history)
unfolding accept_all
accept_all-Tracks seq [] = (seq, first-Tracks seq)
accept_all-Tracks seq (s ∷ history) =
    let (m, r) = accept_all-Tracks s history in
    (max m seq, accept-Tracks (accept_all (s ∷ history)) m seq (s ∷ history) r)

is_replay_below-Represents :
    (b m seq : ℕ)
    → (history : List ℕ) → Represents b m history
    → is_replay_below b m seq ≡ (was_accepted seq history || leb (seq + 64) m)
unfolding is_replay_below
is_replay_below-Represents b m seq history r = elim (Bool-cases (ltb m seq)) [
  | inl t ↦ let old = r.above seq (ground arith) in ground arith
  | inr f ↦ elim (Bool-cases (leb (seq + 64) m)) [
    | inl far ↦ ground arith
    | inr near ↦ let bit = r.kept seq (ground arith) (ground arith) in ground arith
  ]
]

is_replay-Tracks :
    (w : ReplayWindow)
    → (m seq : ℕ) → (history : List ℕ) → Tracks w m history
    → is_replay w seq ≡ (was_accepted seq history || is_stale (highest_of history) seq)
unfolding is_replay is_stale
is_replay-Tracks w m seq history r =
    rw r.at_top (rw r.top_is (is_replay_below-Represents w.bitmap m seq history r.window))

-- After any history of accepted sequence numbers, the newest first, a number is taken for a replay exactly when it was
-- accepted before or is as far behind the highest one as the window is wide.
pub is_replay-accept_all :
    (history : List ℕ)
    → (seq : ℕ)
    → is_replay (accept_all history) seq
      ≡ (was_accepted seq history || is_stale (highest_of history) seq)
unfolding accept_all is_replay was_accepted highest_of is_stale
is_replay-accept_all [] seq = refl
is_replay-accept_all (s ∷ history) seq =
    let (m, r) = accept_all-Tracks s history in
    is_replay-Tracks (accept_all (s ∷ history)) m seq (s ∷ history) r
