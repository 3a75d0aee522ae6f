-- ===== src/Ocf/PollScheduler/Due.antt =====
-- The deadlines after `_run_due_tiers`, against a description that calls no helper of the code.
use smart_things_local.Prelude.{
  ℕ, ◌+◌, ◌<◌, ◌≤◌, ◌≡◌, ◌≢◌, ◌⊎◌, Option-cases, refl, ap, ◌∙◌, Bool, true, false, not, ◌&&◌, List,
  [], ◌∷◌, Option, none, some, arith, leb, All, if◌then◌else◌, Bool-cases, inl, inr,
}
use Prim.Native.String.{String}
use text.Mathlib.Text.{◌==◌}
use text.Mathlib.TextEquality.{eq_iff}
use smart_things_local.Prelude.Bytes.{Bytes}
use smart_things_local.Ocf.Dict.{Eq, get, set}
use smart_things_local.Ocf.Dict.Laws.{get-set, equal_sym}
use smart_things_local.Ocf.StateCache.{string_eq, Hooks}
use smart_things_local.Ocf.PollScheduler.{
  PollTier, Scheduler, Exchange, Loaded, do_tier, run_tiers, run_due_tiers, is_due, interval_of,
}
use smart_things_local.Ocf.PollScheduler.Accounting.{do_tier-Accounts}

-- No sweep without a path, and no name twice.
abbrev pub Polls : PollTier → Type 0
Polls tier = tier.is_sweep ≡ true → tier.paths ≢ []

abbrev pub Fresh : String → List PollTier → Type 0
Fresh name [] = Unit
Fresh name (tier ∷ tiers) = ((tier.name == name) ≡ false) × Fresh name tiers

abbrev pub Named : List PollTier → Type 0
Named [] = Unit
Named (tier ∷ tiers) = Fresh tier.name tiers × Named tiers

-- What becomes of the deadline of a tier, where `fast` tells that the active cadence is in use: a deadline
-- in the future stands, and one that has come is moved by the interval of the cadence.
pub record Moved (now : ℕ) (fast : Type 0) (tier : PollTier) (before after : Option ℕ)
    : Type 0 where
  pub unknown : before ≡ none → after ≡ none
  pub stands : (d : ℕ) → before ≡ some d → now < d → after ≡ some d
  pub active :
      (d i : ℕ)
      → before ≡ some d
      → d ≤ now
      → fast
      → tier.active_interval ≡ some i
      → after ≡ some (now + i)
  pub idle :
      (d : ℕ)
      → before ≡ some d
      → d ≤ now
      → ¬ fast ⊎ (tier.active_interval ≡ none)
      → after ≡ some (now + tier.interval)
  pub later :
      (d : ℕ)
      → after ≡ some d
      → 0 < tier.interval
      → ((i : ℕ) → tier.active_interval ≡ some i → 0 < i)
      → now < d

-- What the code computes.
deadline_after : ℕ → Bool → PollTier → Option ℕ → Option ℕ
deadline_after now effective_active tier before =
    if is_due before now then some (now + interval_of effective_active tier) else before

apart_sym : (a b : String) → (a == b) ≡ false → (b == a) ≡ false
apart_sym a b h = equal_sym b a ∙ h

interval_of-pos :
    (active : Bool) (tier : PollTier)
    → 0 < tier.interval
    → ((i : ℕ) → tier.active_interval ≡ some i → 0 < i)
    → 0 < interval_of active tier
unfolding interval_of
interval_of-pos active tier pos h = elim (Option-cases tier.active_interval) [
  | inl e ↦ ground arith
  | inr (i, e) ↦ ground (arith, h i e)
]

due_later :
    (now : ℕ) (active : Bool) (tier : PollTier) (before : Option ℕ) (d : ℕ)
    → deadline_after now active tier before ≡ some d
    → 0 < interval_of active tier
    → now < d
unfolding is_due deadline_after
due_later now active tier none d e pos = absurd (ground arith)
due_later now active tier (some b) d e pos = ground arith

deadline_after-Moved :
    (now : ℕ) (effective : Bool) (fast : Type 0) (tier : PollTier) (before : Option ℕ)
    → (fast → effective ≡ true)
    → (¬ fast → effective ≡ false)
    → Moved now fast tier before (deadline_after now effective tier before)
unfolding is_due deadline_after interval_of
deadline_after-Moved now effective fast tier before yes_fast no_fast = record {
  unknown = λ e. rw e refl;
  stands = λ d e h. rw e (ground arith);
  active = λ d i e h f a. rw e (ground (arith, yes_fast f));
  idle =
      λ d e h slow. rw e (elim slow [ inl n ↦ ground (arith, no_fast n) | inr a ↦ ground arith ]);
  later =
      λ d e pos h. due_later now effective tier before d e (interval_of-pos effective tier pos h);
}

-- Deadlines read from a state that differs only at one name.
adjust :
    (now : ℕ) (active : Bool) (f g result : String → Option ℕ) (name : String)
    (tiers : List PollTier)
    → ((n : String) → (n == name) ≡ false → f n ≡ g n)
    → Fresh name tiers
    → All (λ (t : PollTier). result t.name ≡ deadline_after now active t (f t.name)) tiers
    → All (λ (t : PollTier). result t.name ≡ deadline_after now active t (g t.name)) tiers
adjust now active f g result name [] e fresh a = tt
adjust now active f g result name (tier ∷ tiers) e fresh a = (
  a.0 ∙ ap (deadline_after now active tier) (e tier.name fresh.0),
  adjust now active f g result name tiers e fresh.1 a.1,
)

all_Moved :
    (now : ℕ) (effective : Bool) (fast : Type 0) (before result : String → Option ℕ)
    (tiers : List PollTier)
    → (fast → effective ≡ true)
    → (¬ fast → effective ≡ false)
    → All (λ (t : PollTier). result t.name ≡ deadline_after now effective t (before t.name)) tiers
    → All (λ (t : PollTier). Moved now fast t (before t.name) (result t.name)) tiers
all_Moved now effective fast before result [] yes_fast no_fast a = tt
all_Moved now effective fast before result (tier ∷ tiers) yes_fast no_fast a = (
  rw a.0 (deadline_after-Moved now effective fast tier (before tier.name) yes_fast no_fast),
  all_Moved now effective fast before result tiers yes_fast no_fast a.1,
)

module _ {Value State : Type 0} where
  -- When the active cadence is used: the appliance is active, and the last window had fewer timeouts than the threshold.
  abbrev pub IsFast : Scheduler Value State → Bool → Type 0
  IsFast s active = (active ≡ true) × (s.window.last_timeouts < s.active_throttle_threshold)

  -- What the code computes.
  abbrev effective : Scheduler Value State → Bool → Bool
  effective s active =
      active && not (active && leb s.active_throttle_threshold s.window.last_timeouts)

  effective-IsFast :
      (s : Scheduler Value State) (active : Bool)
      → (IsFast s active → effective s active ≡ true)
        × (¬ (IsFast s active) → effective s active ≡ false)
  effective-IsFast s true =
      elim (Bool-cases (leb s.active_throttle_threshold s.window.last_timeouts)) [
        | inl many ↦ (λ f. absurd (ground arith), λ n. rw many refl)
        | inr few ↦ (λ f. rw few refl, λ n. absurd (n (refl, ground arith)))
      ]
  effective-IsFast s false = (λ f. absurd (ground arith), λ n. refl)

module _ {Value State : Type 0} ⦃val : Eq Value⦄ (h : Hooks Value State)
    (loads : Bytes → Loaded Value) where
  -- The turn of the first of some tiers.
  abbrev turn :
      Scheduler Value State → ℕ → Bool → (String → ℕ → Exchange) → PollTier → Scheduler Value State
  turn s now active exchanges tier =
      if is_due (get s.next_due tier.name) now
      then do_tier h loads
          (record s { next_due = set s.next_due tier.name (now + interval_of active tier) }) tier
          (exchanges tier.name)
      else s

  get-turn :
      (s : Scheduler Value State) (now : ℕ) (active : Bool) (exchanges : String → ℕ → Exchange)
      (tier : PollTier) (name : String)
      → Polls tier
      → get (turn s now active exchanges tier).next_due name ≡ (
          if name == tier.name
          then deadline_after now active tier (get s.next_due tier.name)
          else get s.next_due name)
  unfolding deadline_after
  get-turn s now active exchanges tier name p =
      elim (Bool-cases (is_due (get s.next_due tier.name) now)) [
        | inl due ↦
            let s' = record s {
              next_due = set s.next_due tier.name (now + interval_of active tier);
            } in
            let kept = (do_tier-Accounts h loads s' tier (exchanges tier.name) p).deadlines in
            simp (due, kept)
              (ground (arith, get-set s.next_due tier.name (now + interval_of active tier) name))
        | inr not_due ↦ elim (Bool-cases (name == tier.name)) [
          | inl found ↦
              let same_name = (eq_iff name tier.name).0 found in
              simp (not_due, found) (ap (get s.next_due) same_name)
          | inr apart ↦ simp (not_due, apart) refl
        ]
      ]

  -- A name that no tier has keeps its deadline.
  run_tiers-Fresh :
      (s : Scheduler Value State) (now : ℕ) (active : Bool) (exchanges : String → ℕ → Exchange)
      (tiers : List PollTier) (name : String)
      → All Polls tiers
      → Fresh name tiers
      → get (run_tiers h loads s now active exchanges tiers).next_due name ≡ get s.next_due name
  unfolding run_tiers
  run_tiers-Fresh s now active exchanges [] name p f = refl
  run_tiers-Fresh s now active exchanges (tier ∷ tiers) name p f =
      run_tiers-Fresh (turn s now active exchanges tier) now active exchanges tiers name p.1 f.1
      ∙ ground (arith, get-turn s now active exchanges tier name p.0, apart_sym tier.name name f.0)

  run_tiers_deadlines :
      (s : Scheduler Value State) (now : ℕ) (active : Bool) (exchanges : String → ℕ → Exchange)
      (tiers : List PollTier)
      → All Polls tiers
      → Named tiers
      → All
          (λ (t : PollTier).
            get (run_tiers h loads s now active exchanges tiers).next_due t.name
            ≡ deadline_after now active t (get s.next_due t.name))
          tiers
  unfolding run_tiers
  run_tiers_deadlines s now active exchanges [] p n = tt
  run_tiers_deadlines s now active exchanges (tier ∷ tiers) p n =
      let s' = turn s now active exchanges tier in
      let own = get-turn s now active exchanges tier tier.name p.0 in
      let same_name : (tier.name == tier.name) ≡ true = (eq_iff tier.name tier.name).1 refl in
      (
        run_tiers-Fresh s' now active exchanges tiers tier.name p.1 n.0 ∙ own ∙ simp same_name refl,
        adjust now active (get s'.next_due) (get s.next_due)
            (get (run_tiers h loads s' now active exchanges tiers).next_due) tier.name tiers
            (λ name apart. get-turn s now active exchanges tier name p.0 ∙ simp apart refl) n.0
            (run_tiers_deadlines s' now active exchanges tiers p.1 n.1),
      )

  -- A run at `now`, whatever is answered, over tiers of different names none of which is a sweep without a path: every
  -- deadline in the future stands; one that has come is moved to `now` and the active interval, if the
  -- appliance is active, the last window had fewer timeouts than the threshold and the tier has one, and to `now` and
  -- the idle interval otherwise; so the deadline of a tier whose intervals are positive is in the future.
  pub run_due_tiers_deadlines :
      (s : Scheduler Value State) (now : ℕ) (active : Bool) (exchanges : String → ℕ → Exchange)
      → All Polls s.tiers
      → Named s.tiers
      → All
          (λ (t : PollTier).
            Moved now
              (IsFast s active)
              t
              (get s.next_due t.name)
              (get (run_due_tiers h loads s now active exchanges).next_due t.name))
          s.tiers
  unfolding run_due_tiers
  run_due_tiers_deadlines s now active exchanges p n =
      let fast = effective-IsFast s active in
      all_Moved now (effective s active) (IsFast s active) (get s.next_due)
        (get (run_due_tiers h loads s now active exchanges).next_due) s.tiers fast.0 fast.1
        (run_tiers_deadlines
          (record s {
            last_active = some active;
            last_throttled = active && leb s.active_throttle_threshold s.window.last_timeouts;
          })
          now (effective s active) exchanges s.tiers p n)
