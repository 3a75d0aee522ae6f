-- ===== src/Ocf/PollScheduler/Examples.antt =====
-- The theorems on poll_scheduler.py at a concrete scheduler: a hot tier, and a sweep.
use smart_things_local.Prelude.{ℕ, refl, true, false, [], ◌∷◌, none, some, arith, All}
use Prim.Native.String.{String}
use smart_things_local.Prelude.Bytes.{Bytes}
use smart_things_local.Ocf.Dict.{get}
use smart_things_local.Ocf.StateCache.{string_eq, Hooks, init}
use smart_things_local.Ocf.PollScheduler.{
  PollTier, Scheduler, Exchange, timeout, response, Loaded, rep, raises, do_paths, do_tier,
  run_due_tiers,
}
use smart_things_local.Ocf.PollScheduler.Accounting.{Accounts, do_tier-Accounts}
use smart_things_local.Ocf.PollScheduler.Due.{Moved, IsFast, run_due_tiers_deadlines}

abbrev hooks : Hooks String ℕ
hooks = record { on_observation = none; has_on_change = false }

-- Every body but the empty one is the dict of one power state.
abbrev loads : Bytes → Loaded String
loads [] = raises
loads (b ∷ bs) = rep (("power", "on") ∷ [])

abbrev hot : PollTier
hot = record {
  name = "hot";
  interval = 3000;
  paths = ("power" ∷ "0" ∷ []) ∷ ("course" ∷ "vs" ∷ "0" ∷ []) ∷ [];
  active_interval = some 1000;
  is_sweep = false;
}

abbrev sweep : PollTier
sweep = record {
  name = "sweep";
  interval = 60000;
  paths = ("device" ∷ "0" ∷ []) ∷ [];
  active_interval = none;
  is_sweep = true;
}

abbrev scheduler : Scheduler String ℕ
scheduler = record {
  tiers = hot ∷ sweep ∷ [];
  active_throttle_threshold = 3;
  next_due = ("hot", 100) ∷ ("sweep", 5000) ∷ [];
  defer_until = [];
  poll_count = 0;
  poll_error_count = 0;
  last_active = none;
  last_throttled = false;
  last_success_ts = 100;
  slow_threshold = 1000;
  window = record { max_rtt = 0; slow_count = 0; timeout_count = 0; last_timeouts = 0 };
  cache = init 0;
}

-- A timeout of the first path, and an answer to everything else.
abbrev wedged : Exchange
wedged = record { checked = 200; sent = 200; over = 2200; wall = 0; answer = timeout }

abbrev exchanges : String → ℕ → Exchange
exchanges tier i = record {
  checked = 200;
  sent = 200;
  over = 230;
  wall = 7;
  answer = response 0x45 (1 ∷ []);
}

do_tier-Accounts_example : Accounts scheduler (do_tier hooks loads scheduler hot (exchanges "hot"))
do_tier-Accounts_example =
    do_tier-Accounts hooks loads scheduler hot (exchanges "hot") (λ e. absurd (ground arith))

run_due_tiers_deadlines_example :
    All
      (λ (t : PollTier).
        Moved 200
          (IsFast scheduler true)
          t
          (get scheduler.next_due t.name)
          (get (run_due_tiers hooks loads scheduler 200 true exchanges).next_due t.name))
      scheduler.tiers
run_due_tiers_deadlines_example =
    run_due_tiers_deadlines hooks loads scheduler 200 true exchanges
      ((λ e. absurd (ground arith)), ((λ e e'. absurd (ground arith)), tt)) ((refl, tt), (tt, tt))

abbrev after_timeout : Scheduler String ℕ
after_timeout = do_paths hooks loads scheduler hot (("power" ∷ "0" ∷ [], wedged) ∷ [])
