-- ===== src/Ble/Examples.antt =====
-- The theorems on ble_ocf.py at concrete PDUs.
use smart_things_local.Prelude.{
  ℕ, ◌≤◌, ◌<◌, ◌≡◌, refl, true, false, List, [], ◌∷◌, arith, map, length, All,
}
use smart_things_local.Prelude.Bytes.{Bytes}
use smart_things_local.Errors.{ok}
use smart_things_local.Ble.Frame.{BleOcfPdu, validate_mtu, validate_max_pdu_size}
use smart_things_local.Ble.Frame.Sendable.{Sendable}
use smart_things_local.Ble.Reassembler.{
  Reassembler, idle, init, feed, feed_adaptive, buffered_bytes, in_progress,
}
use smart_things_local.Ble.Reassembler.RoundTrip.{
  fragment_each, feed_all, feed_all-fragment_each, closed, sent, feed_all-adaptive,
}
use smart_things_local.Ble.Reassembler.Bounds.{feed_each, Answers, feed_each-IsBounded}

-- Five bytes, which take two frames of eight bytes.
abbrev long : BleOcfPdu
long = record { pdu = 1 ∷ 2 ∷ 3 ∷ 4 ∷ 5 ∷ []; source_port = 1; destination_port = 0; secure = true }

-- One byte, which takes one.
abbrev short : BleOcfPdu
short = record { pdu = 9 ∷ []; source_port = 7; destination_port = 127; secure = false }

abbrev long-Sendable : Sendable 8 100 long
long-Sendable = record {
  room = omega arith;
  mtu_fits = omega arith;
  bound_fits = omega arith;
  source_some = omega arith;
  source_fits = omega arith;
  destination_fits = omega arith;
  pdu_some = omega arith;
  pdu_fits = omega arith;
}

abbrev short-Sendable : (mtu : ℕ) → 6 < mtu → mtu ≤ 100 → Sendable mtu 100 short
short-Sendable mtu h k = record {
  room = h;
  mtu_fits = omega arith;
  bound_fits = omega arith;
  source_some = omega arith;
  source_fits = omega arith;
  destination_fits = omega arith;
  pdu_some = omega arith;
  pdu_fits = omega arith;
}

feed_all-fragment_each_example :
    (fs : List Bytes) × (fragment_each 100 (map (λ p. (8, p)) (long ∷ short ∷ [])) ≡ ok fs)
    × All (λ f. length f ≤ 8) fs
    × (feed_all feed (idle 8 100) fs ≡ (idle 8 100, ok (long ∷ short ∷ [])))
unfolding init validate_mtu validate_max_pdu_size
feed_all-fragment_each_example =
    feed_all-fragment_each 8 100 (idle 8 100) (long ∷ short ∷ []) refl
      (long-Sendable, (short-Sendable 8 (omega arith) (omega arith), tt))

abbrev sends : List (ℕ × BleOcfPdu)
sends = (20, short) ∷ (8, long) ∷ []

feed_all-adaptive_example :
    (fs : List Bytes) × (fragment_each 100 sends ≡ ok fs)
    × (feed_all feed_adaptive (closed 100) fs ≡ (closed 100, ok (sent sends)))
feed_all-adaptive_example =
    feed_all-adaptive 100 sends (short-Sendable 20 (omega arith) (omega arith), (long-Sendable, tt))

-- The first frame of a PDU, and then the first frame of another.
abbrev start : Bytes
start = 129 ∷ 128 ∷ 0 ∷ 0 ∷ 0 ∷ 5 ∷ 1 ∷ 2 ∷ []

abbrev begun : Reassembler
begun = feed_each (idle 8 100) (start ∷ [])

feed_each-IsBounded_example :
    (buffered_bytes begun < 100)
    × (in_progress begun ≡ false → buffered_bytes begun ≡ 0)
    × Answers 100 (feed begun start).0 (feed begun start).1
unfolding init validate_mtu validate_max_pdu_size
feed_each-IsBounded_example = feed_each-IsBounded 8 100 (idle 8 100) (start ∷ []) start refl
