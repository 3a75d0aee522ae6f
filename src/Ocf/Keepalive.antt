-- ===== src/Ocf/Keepalive.antt =====
-- smartthings_local/ocf/keepalive.py: whether the appliance is reachable. A tick takes what the
-- session and the liveness function answer, and tells which callback it calls.
pub mod History
pub mod Examples
use smart_things_local.Prelude.{
  ℕ, suc, Bool, true, false, ◌&&◌, not, List, [], ◌∷◌, ◌++◌, Option, none, some, leb, if◌then◌else◌,
}

-- What `session.ping` does: it returns, or raises.
pub data Ping : Type 0 where
  sent connection_error other_error : Ping

-- What `liveness_fn` does.
pub data Liveness : Type 0 where
  alive : Bool → Liveness
  raised : Liveness

-- What one tick meets; no liveness where there is no `liveness_fn`.
pub record Answers : Type 0 where
  pub ping : Ping
  pub liveness : Option Liveness

-- The calls of the callbacks; a callback's exception is caught and goes no further.
pub data Call : Type 0 where
  on_reachable on_unreachable : Call

-- The constructor's arguments that a tick reads: the threshold, and which callbacks there are.
pub record Config : Type 0 where
  pub fail_threshold : ℕ
  pub has_on_reachable : Bool
  pub has_on_unreachable : Bool

pub record KeepaliveTask : Type 0 where
  pub fail_streak : ℕ
  pub reachable : Bool
  pub ping_count : ℕ
  pub ping_fail_count : ℕ

-- `__init__`
abbrev pub init : KeepaliveTask
init = record { fail_streak = 0; reachable = true; ping_count = 0; ping_fail_count = 0 }

unfoldable pub is_alive : Option Liveness → Bool
is_alive none = true
is_alive (some (alive b)) = b
is_alive (some raised) = true

-- The flag `ok` after the ping and the liveness check.
unfoldable pub tick_ok : Answers → Bool
tick_ok a = elim a.ping [
  | sent ↦ is_alive a.liveness
  | connection_error ↦ false
  | other_error ↦ false
]

unfoldable pub succeed : Config → KeepaliveTask → KeepaliveTask × List Call
succeed c s = if s.reachable then (record s { fail_streak = 0 }, []) else (
  record s { reachable = true; fail_streak = 0 },
  if c.has_on_reachable then on_reachable ∷ [] else [],
)

unfoldable pub fail : Config → KeepaliveTask → KeepaliveTask × List Call
fail c s =
    let streak = suc s.fail_streak in
    let counted = record s { ping_fail_count = suc s.ping_fail_count; fail_streak = streak } in
    if s.reachable && leb c.fail_threshold streak
    then (
      record counted { reachable = false },
      if c.has_on_unreachable then on_unreachable ∷ [] else [],
    )
    else (counted, [])

-- `_tick`
unfoldable pub tick : Config → KeepaliveTask → Answers → KeepaliveTask × List Call
tick c s a =
    let counted = record s { ping_count = suc s.ping_count } in
    if tick_ok a then succeed c counted else fail c counted
