-- ===== src/Ocf/PollScheduler.antt =====
-- smartthings_local/ocf/poll_scheduler.py: polling in tiers. Times are milliseconds of a clock; what the
-- session answers, and when, is an argument, and the readings of the clock after one answer are one.
-- `cbor2.loads` is a parameter. `session.pace`, which only sleeps, and logging are left out.
mod Paths
pub mod Tiers
pub mod Accounting
pub mod Due
pub mod Examples
use smart_things_local.Prelude.{
  ℕ, zero, suc, ◌+◌, ◌-◌, ◌*◌, min, max, Bool, true, false, not, ◌&&◌, ◌||◌, List, [], ◌∷◌, ◌++◌,
  Option, none, some, ltb, leb, ◌==◌, if◌then◌else◌, length,
}
use Prim.Native.String.{String}
use smart_things_local.Prelude.Bytes.{Bytes}
use smart_things_local.Errors.{Result, ok, err}
use smart_things_local.Ocf.PollScheduler.Paths.{href_of}
use smart_things_local.Ocf.Dict.{Eq, Dict, get, set}
use smart_things_local.Ocf.StateCache.{
  string_eq, href_eq, Href, textual, atom, Rep, Body, dict, other, Entry, StateCache, Hooks,
  apply_rep, index_device_tree,
}

pub record PollTier : Type 0 where
  pub name : String
  pub interval : ℕ
  pub paths : List (List String)
  pub active_interval : Option ℕ
  pub is_sweep : Bool

-- The counters of a health window.
pub record Window : Type 0 where
  pub max_rtt : ℕ
  pub slow_count : ℕ
  pub timeout_count : ℕ
  pub last_timeouts : ℕ

pub record Scheduler (Value State : Type 0) : Type 0 where
  pub tiers : List PollTier
  pub active_throttle_threshold : ℕ
  pub next_due : Dict String ℕ
  pub defer_until : Dict String ℕ
  pub poll_count : ℕ
  pub poll_error_count : ℕ
  pub last_active : Option Bool
  pub last_throttled : Bool
  pub last_success_ts : ℕ
  pub slow_threshold : ℕ
  pub window : Window
  pub cache : StateCache Value State

-- What `session.get` does: it raises, or returns a code and a body.
pub data Answer : Type 0 where
  timeout connection_error other_error : Answer
  response : ℕ → Bytes → Answer

-- One path's turn: when its deferral is looked up, when the request is sent, when it is over, and the
-- wall clock then.
pub record Exchange : Type 0 where
  pub checked : ℕ
  pub sent : ℕ
  pub over : ℕ
  pub wall : ℕ
  pub answer : Answer

-- What `cbor2.loads` returns: a dict, a list, something else, or an exception.
pub data Loaded (Value : Type 0) : Type 0 where
  rep : Rep Value → Loaded Value
  tree : List (Entry Value) → Loaded Value
  something : Loaded Value
  raises : Loaded Value

-- `_cooldown_for`
unfoldable pub cooldown_for : PollTier → ℕ
cooldown_for tier = max 5000 (min 60000 (tier.interval * 3))

-- `_record_rtt`, after a timeout and otherwise
unfoldable pub record_timeout : Window → Window
record_timeout w = record w { timeout_count = suc w.timeout_count }

unfoldable pub record_rtt : ℕ → Window → ℕ → Window
record_rtt slow_threshold w rtt = record w {
  max_rtt = if ltb w.max_rtt rtt then rtt else w.max_rtt;
  slow_count = if leb slow_threshold rtt then suc w.slow_count else w.slow_count;
}

unfoldable pub interval_of : Bool → PollTier → ℕ
interval_of effective_active tier =
    if effective_active
    then elim tier.active_interval [ none ↦ tier.interval | some i ↦ i ]
    else tier.interval

-- `self._next_due[tier.name] > now` the other way round; every tier has a deadline.
unfoldable pub is_due : Option ℕ → ℕ → Bool
is_due none now = false
is_due (some deadline) now = leb deadline now

-- The paths of a tier with what happens at each one's turn.
abbrev pub enumerate : (ℕ → Exchange) → ℕ → List (List String) → List (List String × Exchange)
enumerate exchanges i [] = []
enumerate exchanges i (path ∷ rest) = (path, exchanges i) ∷ enumerate exchanges (suc i) rest

-- Every tier is due at the start.
abbrev pub due_at : ℕ → List PollTier → Dict String ℕ
due_at now [] = []
due_at now (tier ∷ tiers) = set (due_at now tiers) tier.name now

-- `__init__`
abbrev pub init :
    {Value State : Type 0} → List PollTier → ℕ → ℕ → StateCache Value State → Scheduler Value State
init tiers threshold now cache = record {
  tiers = tiers;
  active_throttle_threshold = threshold;
  next_due = due_at now tiers;
  defer_until = [];
  poll_count = 0;
  poll_error_count = 0;
  last_active = none;
  last_throttled = false;
  last_success_ts = now;
  slow_threshold = 1000;
  window = record { max_rtt = 0; slow_count = 0; timeout_count = 0; last_timeouts = 0 };
  cache = cache;
}

module _ {Value State : Type 0} where
  -- `_set_cooldown`, and `write_in_progress` with its settling time
  unfoldable pub defer : Scheduler Value State → String → ℕ → ℕ → Scheduler Value State
  defer s href now delay = record s { defer_until = set s.defer_until href (now + delay) }

  unfoldable pub is_deferred : Scheduler Value State → String → ℕ → Bool
  is_deferred s href now = elim (get s.defer_until href) [
    | none ↦ false
    | some until ↦ ltb now until
  ]

  -- Only texts are ever deferred.
  unfoldable pub is_link_deferred : Scheduler Value State → Href → ℕ → Bool
  is_link_deferred s (textual href) now = is_deferred s href now
  is_link_deferred s (atom _) now = false

  unfoldable pub take_window_stats : Scheduler Value State → Scheduler Value State × (ℕ × ℕ × ℕ)
  take_window_stats s = (
    record s {
      window = record {
        max_rtt = 0;
        slow_count = 0;
        timeout_count = 0;
        last_timeouts = s.window.timeout_count;
      };
    },
    (s.window.max_rtt, s.window.slow_count, s.window.timeout_count),
  )

  unfoldable pub count_error : Scheduler Value State → Scheduler Value State
  count_error s = record s { poll_error_count = suc s.poll_error_count }

  unfoldable pub count_poll : Scheduler Value State → Scheduler Value State
  count_poll s = record s { poll_count = suc s.poll_count }

  unfoldable pub time_poll : Scheduler Value State → Exchange → Scheduler Value State
  time_poll s x = record s { window = record_rtt s.slow_threshold s.window (x.over - x.sent) }

  -- A failed request: the error, the time, and after a timeout the deferral.
  unfoldable pub time_out :
      Scheduler Value State → PollTier → String → Exchange → Scheduler Value State
  unfolding count_error defer
  time_out s tier href x =
      let counted = count_error s in
      defer (record counted { window = record_timeout s.window }) href x.over (cooldown_for tier)

-- A 2.05 with a body.
unfoldable pub is_success : Answer → Bool
is_success timeout = false
is_success connection_error = false
is_success other_error = false
is_success (response code []) = false
is_success (response code (b ∷ bs)) = code == 0x45

module _ {Value State : Type 0} ⦃val : Eq Value⦄ (h : Hooks Value State)
    (loads : Bytes → Loaded Value) where
  -- A 2.05 with a body, in `_do_tier`.
  unfoldable pub take_rep :
      Scheduler Value State → String → Exchange → Loaded Value → Scheduler Value State
  unfolding count_error
  take_rep s href x (rep r) = record s {
    cache = (apply_rep h x.wall s.cache (textual href) (dict r) "poll" false).0;
  }
  take_rep s href x (tree entries) = s
  take_rep s href x something = s
  take_rep s href x raises = count_error s

  -- The links of a sweep, one after the other.
  unfoldable pub apply_links :
      Scheduler Value State → Exchange → Dict Href (Body Value) → Scheduler Value State
  unfolding is_link_deferred
  apply_links s x [] = s
  apply_links s x ((href, r) ∷ links) =
      if is_link_deferred s href x.over
      then apply_links s x links
      else apply_links (record s { cache = (apply_rep h x.wall s.cache href r "sweep" false).0 }) x
          links

  -- The links of a tree; an href that cannot be hashed raises, which counts as an error.
  unfoldable pub take_links :
      Scheduler Value State → Exchange → Result (Dict Href (Body Value)) → Scheduler Value State
  unfolding count_error
  take_links s x (err e) = count_error s
  take_links s x (ok links) = apply_links s x links

  -- A 2.05 with a body, in `_do_sweep`.
  unfoldable pub take_tree : Scheduler Value State → Exchange → Loaded Value → Scheduler Value State
  unfolding count_error
  take_tree s x (rep r) = s
  take_tree s x (tree entries) = take_links s x (index_device_tree entries)
  take_tree s x something = s
  take_tree s x raises = count_error s

  -- One path of a tier once its request is sent: whether the loop goes on, and the state.
  unfoldable pub poll :
      Scheduler Value State → PollTier → String → Exchange → Bool × Scheduler Value State
  poll s tier href x = elim x.answer [
    | timeout ↦ (false, time_out (count_poll s) tier href x)
    | connection_error ↦ (false, time_poll (count_error (count_poll s)) x)
    | other_error ↦ (false, time_poll (count_error (count_poll s)) x)
    | response code body ↦
        let timed = time_poll (count_poll s) x in
        if is_success (response code body)
        then (true, take_rep (record timed { last_success_ts = x.over }) href x (loads body))
        else (true, count_error timed)
  ]

  -- The loop of `_do_tier`, with the exchange of each path.
  unfoldable pub do_paths :
      Scheduler Value State → PollTier → List (List String × Exchange) → Scheduler Value State
  do_paths s tier [] = s
  do_paths s tier ((path, x) ∷ rest) =
      if is_deferred s (href_of path) x.checked
      then do_paths s tier rest
      else let (goes_on, s') = poll s tier (href_of path) x in
        if goes_on then do_paths s' tier rest else s'

  -- `_do_sweep`
  unfoldable pub do_sweep :
      Scheduler Value State → PollTier → List String → Exchange → Scheduler Value State
  do_sweep s tier path x = elim x.answer [
    | timeout ↦ time_out (count_poll s) tier (href_of path) x
    | connection_error ↦ time_poll (count_error (count_poll s)) x
    | other_error ↦ time_poll (count_error (count_poll s)) x
    | response code body ↦
        let timed = time_poll (count_poll s) x in
        if is_success (response code body)
        then take_tree (record timed { last_success_ts = x.over }) x (loads body)
        else count_error timed
  ]

  -- What a due tier does; a sweep with no path raises, which counts as an error.
  unfoldable pub do_tier : Scheduler Value State → PollTier → (ℕ → Exchange) → Scheduler Value State
  do_tier s tier exchanges =
      if tier.is_sweep
      then elim tier.paths [ [] ↦ count_error s | path ∷ rest ↦ do_sweep s tier path (exchanges 0) ]
      else do_paths s tier (enumerate exchanges 0 tier.paths)

  -- The loop of `_run_due_tiers`.
  unfoldable pub run_tiers :
      Scheduler Value State
      → ℕ
      → Bool
      → (String → ℕ → Exchange)
      → List PollTier
      → Scheduler Value State
  run_tiers s now effective_active exchanges [] = s
  run_tiers s now effective_active exchanges (tier ∷ rest) =
      let s' =
        if is_due (get s.next_due tier.name) now
        then do_tier
            (record s {
              next_due = set s.next_due tier.name (now + interval_of effective_active tier);
            })
            tier (exchanges tier.name)
        else s in
      run_tiers s' now effective_active exchanges rest

  -- `_run_due_tiers`, where `active` is what `is_active_fn` answers: false where there is none or where it raises
  unfoldable pub run_due_tiers :
      Scheduler Value State → ℕ → Bool → (String → ℕ → Exchange) → Scheduler Value State
  run_due_tiers s now active exchanges =
      let throttled = active && leb s.active_throttle_threshold s.window.last_timeouts in
      run_tiers (record s { last_active = some active; last_throttled = throttled }) now
        (active && not throttled) exchanges s.tiers
