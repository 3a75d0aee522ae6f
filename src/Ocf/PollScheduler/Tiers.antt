-- ===== src/Ocf/PollScheduler/Tiers.antt =====
-- Deferred paths in a tier's turn.
use smart_things_local.Prelude.{ℕ, ltb, if◌then◌else◌}
use Prim.Native.String.{String}
use smart_things_local.Prelude.Bytes.{Bytes}
use smart_things_local.Ocf.StateCache.{string_eq}

-- A time held between five seconds and sixty.
abbrev pub clamped : ℕ → ℕ
clamped t = if ltb t 5000 then 5000 else if ltb 60000 t then 60000 else t
