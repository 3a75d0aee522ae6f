-- ===== src/Ocf/Keepalive/History.antt =====
-- The keepalive task against the history of its ticks, newest first.
use smart_things_local.Prelude.{
  ℕ, suc, ◌≤◌, ◌≡◌, refl, Bool, true, false, not, List, [], ◌∷◌, ◌++◌, arith, length, leb,
  if◌then◌else◌, Bool-cases, inl, inr,
}
use smart_things_local.Ocf.Keepalive.{
  Answers, Call, on_reachable, on_unreachable, Config, KeepaliveTask, init, tick, tick_ok, succeed,
  fail,
}

-- The state after a history.
abbrev pub run : Config → List Answers → KeepaliveTask
run c [] = init
run c (a ∷ ticks) = (tick c (run c ticks) a).0

-- The calls that the ticks have made, newest first.
abbrev pub calls : Config → List Answers → List Call
calls c [] = []
calls c (a ∷ ticks) = (tick c (run c ticks) a).1 ++ calls c ticks

-- How many of the newest ticks have failed in a row.
abbrev pub streak : List Answers → ℕ
streak [] = 0
streak (a ∷ ticks) = if tick_ok a then 0 else suc (streak ticks)

abbrev pub failures : List Answers → ℕ
failures [] = 0
failures (a ∷ ticks) = if tick_ok a then failures ticks else suc (failures ticks)

-- What the state says of the history.
pub record Describes (c : Config) (ticks : List Answers) (s : KeepaliveTask) : Type 0 where
  pub streak_is : s.fail_streak ≡ streak ticks
  pub reachable_is : s.reachable ≡ not (leb c.fail_threshold (streak ticks))
  pub count_is : s.ping_count ≡ length ticks
  pub fail_count_is : s.ping_fail_count ≡ failures ticks

tick-Describes :
    (c : Config) (ticks : List Answers) (a : Answers) (s : KeepaliveTask)
    → 1 ≤ c.fail_threshold
    → Describes c ticks s
    → Describes c (a ∷ ticks) (tick c s a).0
unfolding tick succeed fail
tick-Describes c ticks a s h d = elim (Bool-cases (tick_ok a)) [
  | inl e ↦ rw e (record {
    streak_is = ground (arith, d.streak_is, d.reachable_is);
    reachable_is = ground (arith, d.streak_is, d.reachable_is);
    count_is = ground (arith, d.count_is);
    fail_count_is = ground (arith, d.fail_count_is);
  })
  | inr e ↦ rw e (record {
    streak_is = ground (arith, d.streak_is, d.reachable_is);
    reachable_is = ground (arith, d.streak_is, d.reachable_is);
    count_is = ground (arith, d.count_is);
    fail_count_is = ground (arith, d.fail_count_is);
  })
]

-- At every moment the state is what the history makes of it: the streak and the counters are those of the history, and the
-- appliance is unreachable exactly if at least `fail_threshold` ticks in a row have failed, the newest among them.
pub run-Describes :
    (c : Config) (ticks : List Answers) → 1 ≤ c.fail_threshold → Describes c ticks (run c ticks)
run-Describes c [] h = record {
  streak_is = refl;
  reachable_is = ground arith;
  count_is = refl;
  fail_count_is = refl;
}
run-Describes c (a ∷ ticks) h = tick-Describes c ticks a (run c ticks) h (run-Describes c ticks h)

-- The newest call tells the state, the calls before it alternate, and the first is `on_unreachable`.
abbrev pub Alternates : Bool → List Call → Type 0
Alternates reachable [] = reachable ≡ true
Alternates reachable (on_reachable ∷ cs) = (reachable ≡ true) × Alternates false cs
Alternates reachable (on_unreachable ∷ cs) = (reachable ≡ false) × Alternates true cs

tick-Alternates :
    (c : Config) (s : KeepaliveTask) (a : Answers) (cs : List Call)
    → c.has_on_reachable ≡ true
    → c.has_on_unreachable ≡ true
    → Alternates s.reachable cs
    → Alternates (tick c s a).0.reachable ((tick c s a).1 ++ cs)
unfolding tick succeed fail
tick-Alternates c s a cs up down h = ground arith

-- With both callbacks there, their calls alternate, beginning with `on_unreachable`, and the newest
-- one tells whether the appliance is reachable.
pub calls-Alternates :
    (c : Config) (ticks : List Answers)
    → c.has_on_reachable ≡ true
    → c.has_on_unreachable ≡ true
    → Alternates (run c ticks).reachable (calls c ticks)
calls-Alternates c [] up down = refl
calls-Alternates c (a ∷ ticks) up down =
    tick-Alternates c (run c ticks) a (calls c ticks) up down (calls-Alternates c ticks up down)
