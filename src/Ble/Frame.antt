-- ===== src/Ble/Frame.antt =====
-- The header of a frame, and `fragment_pdu`. What is left of the PDU is a list of its own in place of an
-- offset into it.
pub mod Sendable
use smart_things_local.Prelude.{
  ℕ, zero, suc, ◌+◌, ◌-◌, ◌/◌, ◌%◌, Bool, true, false, ◌&&◌, List, [], ◌∷◌, ◌++◌, bit_or, ltb, leb,
  ◌==◌, if◌then◌else◌, length, take, drop, min,
}
use smart_things_local.Prelude.Bytes.{Bytes, pack32}
use smart_things_local.Errors.{Result, ok, err, ble_codec, out_of_fuel, ◌>>=◌}

abbrev pub ble_header_size : ℕ
ble_header_size = 2

abbrev pub ble_first_frame_overhead : ℕ
ble_first_frame_overhead = 6

abbrev pub ble_min_source_port : ℕ
ble_min_source_port = 1

abbrev pub ble_max_port : ℕ
ble_max_port = 127

abbrev pub ble_multicast_port : ℕ
ble_multicast_port = 0

abbrev pub ble_max_mtu : ℕ
ble_max_mtu = 0xffff

abbrev pub ble_wire_max_pdu_size : ℕ
ble_wire_max_pdu_size = 0xffffffff

pub record BleOcfHeader : Type 0 where
  pub start : Bool
  pub source_port : ℕ
  pub secure : Bool
  pub destination_port : ℕ

-- `ReassembledBleOcfPdu`, and the arguments of `fragment_pdu` that it keeps.
pub record BleOcfPdu : Type 0 where
  pub pdu : Bytes
  pub source_port : ℕ
  pub destination_port : ℕ
  pub secure : Bool

-- `_validate_port`: `source` tells which of the two ports it is.
unfoldable pub validate_port : ℕ → Bool → Result ℕ
validate_port port source =
    if leb (if source then ble_min_source_port else ble_multicast_port) port
      && leb port ble_max_port
    then ok port
    else err ble_codec

unfoldable pub validate_mtu : ℕ → Result ℕ
validate_mtu mtu =
    if ltb ble_first_frame_overhead mtu && leb mtu ble_max_mtu then ok mtu else err ble_codec

unfoldable pub validate_max_pdu_size : ℕ → Result ℕ
validate_max_pdu_size max_pdu_size =
    if leb 1 max_pdu_size && leb max_pdu_size ble_wire_max_pdu_size
    then ok max_pdu_size
    else err ble_codec

-- `_coerce_bytes`, on what is bytes-like.
unfoldable pub coerce_bytes : Bytes → ℕ → Result Bytes
coerce_bytes value max_length = if ltb max_length (length value) then err ble_codec else ok value

abbrev pub flag_bit : Bool → ℕ
flag_bit flag = if flag then 0x80 else 0

unfoldable pub encode_header : BleOcfHeader → Result Bytes
encode_header h = do
  source_port ← validate_port h.source_port true
  destination_port ← validate_port h.destination_port false
  ok (bit_or (flag_bit h.start) source_port ∷ bit_or (flag_bit h.secure) destination_port ∷ [])

-- `x & 0x80` and `x & 0x7f` of a byte are its highest bit and the others.
unfoldable pub decode_header : Bytes → Result BleOcfHeader
decode_header [] = err ble_codec
decode_header (first ∷ []) = err ble_codec
decode_header (first ∷ second ∷ _) =
    let source_port = first % 128 in
    if ltb source_port ble_min_source_port
    then err ble_codec
    else ok (record {
      start = first / 128 % 2 == 1;
      source_port = source_port;
      secure = second / 128 % 2 == 1;
      destination_port = second % 128;
    })

abbrev pub header_of : BleOcfPdu → Bool → BleOcfHeader
header_of p start = record {
  start = start;
  source_port = p.source_port;
  secure = p.secure;
  destination_port = p.destination_port;
}

-- The loop of `fragment_pdu` over the rest of the PDU.
unfoldable pub continuation_frames : ℕ → ℕ → Bytes → Bytes → Result (List Bytes)
continuation_frames fuel capacity header [] = ok []
continuation_frames zero capacity header (b ∷ bs) = err out_of_fuel
continuation_frames (suc fuel) capacity header (b ∷ bs) = do
  later ← continuation_frames fuel capacity header (drop capacity (b ∷ bs))
  ok ((header ++ take capacity (b ∷ bs)) ∷ later)

unfoldable pub fragment_valid : BleOcfPdu → ℕ → Result (List Bytes)
fragment_valid p mtu =
    let first_length = min (length p.pdu) (mtu - ble_first_frame_overhead) in
    do
      header ← encode_header (header_of p true)
      continuation_header ← encode_header (header_of p false)
      later ←
          continuation_frames (length p.pdu) (mtu - ble_header_size) continuation_header
            (drop first_length p.pdu)
      ok ((header ++ pack32 (length p.pdu) ++ take first_length p.pdu) ∷ later)

unfoldable pub fragment_pdu : BleOcfPdu → ℕ → ℕ → Result (List Bytes)
fragment_pdu p mtu max_pdu_size = do
  mtu ← validate_mtu mtu
  max_pdu_size ← validate_max_pdu_size max_pdu_size
  source_port ← validate_port p.source_port true
  destination_port ← validate_port p.destination_port false
  raw ← coerce_bytes p.pdu max_pdu_size
  if length raw == 0 then err ble_codec else fragment_valid p mtu
