-- ===== src/Ocf/Keepalive/Examples.antt =====
-- The theorems on keepalive.py at a concrete history.
use smart_things_local.Prelude.{refl, true, false, List, [], ◌∷◌, none, some, arith}
use smart_things_local.Ocf.Keepalive.{Answers, sent, connection_error, other_error, alive, Config}
use smart_things_local.Ocf.Keepalive.History.{
  run, calls, Describes, run-Describes, Alternates, calls-Alternates,
}

abbrev config : Config
config = record { fail_threshold = 3; has_on_reachable = true; has_on_unreachable = true }

-- Newest first: a poll after a ping, a silent peer, and two pings that could not be sent.
abbrev history : List Answers
history =
    (record { ping = sent; liveness = some (alive true) })
    ∷ (record { ping = sent; liveness = some (alive false) })
    ∷ (record { ping = other_error; liveness = none })
    ∷ (record { ping = connection_error; liveness = none })
    ∷ []

run-Describes_example : Describes config history (run config history)
run-Describes_example = run-Describes config history (omega arith)

calls-Alternates_example : Alternates (run config history).reachable (calls config history)
calls-Alternates_example = calls-Alternates config history refl refl
