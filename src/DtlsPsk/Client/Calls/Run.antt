-- ===== src/DtlsPsk/Client/Calls/Run.antt =====
-- Any calls of a client, one after the other.
use smart_things_local.Prelude.{ℕ, Bool, true, false, List, [], ◌∷◌}
use smart_things_local.Prelude.Bytes.{Bytes}
use smart_things_local.Errors.{Result, ok, err}
use smart_things_local.DtlsPsk.Client.{Client, Handler, Library, System, bio_write, bio_read}
use smart_things_local.DtlsPsk.Client.Calls.{do_handshake, send, recv, shutdown, handle_timeout}

-- A call of a client that changes it.
pub data Call : Type 0 where
  writes : Bytes → Call
  reads : ℕ → Call
  shakes_hands : Call
  sends : Bytes → Call
  receives : ℕ → Call
  shuts_down : Call
  times_out : Call

abbrev pub never_resends : List Call → Bool
never_resends [] = true
never_resends (times_out ∷ calls) = false
never_resends (_ ∷ calls) = never_resends calls

module _ {Key : Type 0} (lib : Library Key) (sys : System Key) where
  abbrev pub without_value : {A : Type 0} → Client Key × Result A → Client Key × Result (Unit {0})
  without_value (c, err e) = (c, err e)
  without_value (c, ok a) = (c, ok tt)

  unfoldable pub step : Call → Handler Key
  step (writes datagram) c = without_value (bio_write datagram c)
  step (reads capacity) c = without_value (bio_read capacity c)
  step shakes_hands c = do_handshake lib sys c
  step (sends bytes) c = without_value (send lib sys bytes c)
  step (receives capacity) c = without_value (recv lib sys capacity c)
  step shuts_down c = shutdown lib sys c
  step times_out c = (handle_timeout lib sys c, ok tt)

  -- The client after some calls, and how they ended.
  unfoldable pub run : List Call → Client Key → Client Key × List (Result (Unit {0}))
  run [] c = (c, [])
  run (call ∷ calls) c = let (c', r) = step call c in let (c'', rs) = run calls c' in (c'', r ∷ rs)
