-- ===== src/Ble/Reassembler.antt =====
-- `BleOcfReassembler` and `AdaptiveBleOcfReassembler`. A method that raises leaves a state behind as well.
pub mod Fragments
pub mod RoundTrip
pub mod Bounds
use smart_things_local.Prelude.{
  ℕ, ◌-◌, Bool, true, false, not, ◌&&◌, ◌||◌, List, [], ◌∷◌, ◌++◌, Option, none, some, ltb, ◌==◌,
  if◌then◌else◌, length, take, drop, min,
}
use smart_things_local.Prelude.Bytes.{Bytes, from_bytes}
use smart_things_local.Errors.{Result, ok, err, ble_codec, interleaved_frame, ◌>>=◌}
use smart_things_local.Ble.Frame.{
  BleOcfHeader, BleOcfPdu, ble_header_size, ble_first_frame_overhead, ble_max_mtu, validate_mtu,
  validate_max_pdu_size, coerce_bytes, decode_header,
}

pub record Reassembler : Type 0 where
  pub mtu : ℕ
  pub max_pdu_size : ℕ
  pub header : Option BleOcfHeader
  pub expected_length : ℕ
  pub buffer : Bytes

-- The state after `reset`, with the bounds of the constructor.
abbrev pub idle : ℕ → ℕ → Reassembler
idle mtu max_pdu_size = record {
  mtu = mtu;
  max_pdu_size = max_pdu_size;
  header = none;
  expected_length = 0;
  buffer = [];
}

-- `__init__`
unfoldable pub init : ℕ → ℕ → Result Reassembler
init mtu max_pdu_size = do
  mtu ← validate_mtu mtu
  max_pdu_size ← validate_max_pdu_size max_pdu_size
  ok (idle mtu max_pdu_size)

abbrev pub reset : Reassembler → Reassembler
reset r = idle r.mtu r.max_pdu_size

abbrev pub is_some {ℓ} : {A : Type ℓ} → Option A → Bool
is_some none = false
is_some (some a) = true

unfoldable pub in_progress : Reassembler → Bool
in_progress r = is_some r.header

unfoldable pub buffered_bytes : Reassembler → ℕ
buffered_bytes r = length r.buffer

abbrev pub completed : BleOcfHeader → Bytes → BleOcfPdu
completed h pdu = record {
  pdu = pdu;
  source_port = h.source_port;
  destination_port = h.destination_port;
  secure = h.secure;
}

-- What a call that returns leaves behind and returns.
abbrev pub Fed : Type 0
Fed = Result (Reassembler × Option BleOcfPdu)

-- `_start`, once the length is read.
unfoldable pub start_payload : Reassembler → BleOcfHeader → ℕ → Bytes → Fed
start_payload r h expected_length payload =
    if not (length payload == min expected_length (r.mtu - ble_first_frame_overhead))
    then err ble_codec
    else if length payload == expected_length
    then ok (r, some (completed h payload))
    else ok (
      record r { header = some h; expected_length = expected_length; buffer = r.buffer ++ payload },
      none,
    )

-- `_start`
unfoldable pub start_frame : Reassembler → Bytes → BleOcfHeader → Fed
start_frame r raw h =
    let expected_length = from_bytes (take 4 (drop ble_header_size raw)) in
    if ltb (length raw) ble_first_frame_overhead
    then err ble_codec
    else if expected_length == 0
    then err ble_codec
    else if ltb r.max_pdu_size expected_length
    then err ble_codec
    else start_payload r h expected_length (drop ble_first_frame_overhead raw)

abbrev pub bool_eq : Bool → Bool → Bool
bool_eq true b = b
bool_eq false b = not b

-- The condition under which a continuation frame does not belong to the PDU in progress.
unfoldable pub is_foreign : BleOcfHeader → BleOcfHeader → Bool
is_foreign h active =
    h.start
    || not (h.source_port == active.source_port)
    || not (bool_eq h.secure active.secure)
    || not (h.destination_port == active.destination_port)

-- `_continue`, once the header is found to match.
unfoldable pub continue_payload : Reassembler → BleOcfHeader → Bytes → Fed
continue_payload r active payload =
    let buffer = r.buffer ++ payload in
    if not (length payload == min (r.expected_length - length r.buffer) (r.mtu - ble_header_size))
    then err ble_codec
    else if ltb (length buffer) r.expected_length
    then ok (record r { buffer = buffer }, none)
    else ok (reset r, some (completed active buffer))

-- `_continue`
unfoldable pub continue_frame : Reassembler → Bytes → BleOcfHeader → Option BleOcfHeader → Fed
continue_frame r raw h none = err ble_codec
continue_frame r raw h (some active) =
    if is_foreign h active
    then err interleaved_frame
    else continue_payload r active (drop ble_header_size raw)

unfoldable pub feed_header : Reassembler → Bytes → BleOcfHeader → Fed
feed_header r raw h =
    if h.start
    then if in_progress r then err interleaved_frame else start_frame r raw h
    else continue_frame r raw h r.header

-- `_feed`
unfoldable pub feed_frame : Reassembler → Bytes → Fed
feed_frame r frame = do raw ← coerce_bytes frame r.mtu; h ← decode_header raw; feed_header r raw h

abbrev pub settle : Reassembler → Fed → Reassembler × Result (Option BleOcfPdu)
settle r (err e) = (reset r, err e)
settle r (ok (r', o)) = (r', ok o)

-- `feed`: an error discards the PDU in progress.
unfoldable pub feed : Reassembler → Bytes → Reassembler × Result (Option BleOcfPdu)
feed r frame = settle r (feed_frame r frame)

-- `AdaptiveBleOcfReassembler`
pub record Adaptive : Type 0 where
  pub max_pdu_size : ℕ
  pub reassembler : Option Reassembler

-- Its `__init__`
unfoldable pub init_adaptive : ℕ → Result Adaptive
init_adaptive max_pdu_size = do
  max_pdu_size ← validate_max_pdu_size max_pdu_size
  ok (record { max_pdu_size = max_pdu_size; reassembler = none })

abbrev pub reset_adaptive : Adaptive → Adaptive
reset_adaptive a = record a { reassembler = none }

unfoldable pub in_progress_adaptive : Adaptive → Bool
in_progress_adaptive a = elim a.reassembler [ none ↦ false | some r ↦ in_progress r ]

unfoldable pub buffered_bytes_adaptive : Adaptive → ℕ
buffered_bytes_adaptive a = elim a.reassembler [ none ↦ 0 | some r ↦ buffered_bytes r ]

-- The reassembler that is there, or a new one for the frame size of a first frame.
unfoldable pub reassembler_for : Adaptive → Bytes → Option Reassembler → Result Reassembler
reassembler_for a raw (some r) = ok r
reassembler_for a raw none = do
  h ← decode_header raw
  if h.start then init (length raw) a.max_pdu_size else err ble_codec

-- What its `feed` leaves behind and returns, once the reassembler has been fed.
abbrev pub keep_open :
    Adaptive → Reassembler × Result (Option BleOcfPdu) → Adaptive × Result (Option BleOcfPdu)
keep_open a (r, err e) = (reset_adaptive a, err e)
keep_open a (r, ok none) = (record a { reassembler = some r }, ok none)
keep_open a (r, ok (some p)) = (reset_adaptive a, ok (some p))

abbrev pub feed_found : Adaptive → Bytes → Result Reassembler → Adaptive × Result (Option BleOcfPdu)
feed_found a frame (err e) = (reset_adaptive a, err e)
feed_found a frame (ok r) = keep_open a (feed r frame)

unfoldable pub find_reassembler : Adaptive → Bytes → Result Reassembler
find_reassembler a frame = do
  raw ← coerce_bytes frame ble_max_mtu
  reassembler_for a raw a.reassembler

-- Its `feed`
unfoldable pub feed_adaptive : Adaptive → Bytes → Adaptive × Result (Option BleOcfPdu)
feed_adaptive a frame = feed_found a frame (find_reassembler a frame)
