-- ===== src/Ble/Frame/Sendable.antt =====
-- What `fragment_pdu` makes of a PDU that it accepts.
use smart_things_local.Prelude.{
  ℕ, ◌+◌, ◌/◌, ◌%◌, ◌≤◌, ◌<◌, ◌≡◌, refl, Bool, true, false, [], ◌∷◌, ◌++◌, bit_or, bit_or_shift,
  arith, length, ◌==◌, ltb,
}
use smart_things_local.Prelude.Bytes.{Bytes}
use smart_things_local.Errors.{ok}
use smart_things_local.Ble.Frame.{
  BleOcfHeader, BleOcfPdu, flag_bit, validate_port, validate_mtu, validate_max_pdu_size,
  coerce_bytes, encode_header, decode_header, header_of, fragment_valid, fragment_pdu,
}

-- The arguments that `fragment_pdu` accepts.
pub record Sendable (mtu max_pdu_size : ℕ) (p : BleOcfPdu) : Type 0 where
  pub room : 6 < mtu
  pub mtu_fits : mtu ≤ 0xffff
  pub bound_fits : max_pdu_size ≤ 0xffffffff
  pub source_some : 1 ≤ p.source_port
  pub source_fits : p.source_port ≤ 127
  pub destination_fits : p.destination_port ≤ 127
  pub pdu_some : 1 ≤ length p.pdu
  pub pdu_fits : length p.pdu ≤ max_pdu_size

-- The two bytes of a header.
abbrev pub header_bytes : BleOcfHeader → Bytes
header_bytes h = (flag_bit h.start + h.source_port) ∷ (flag_bit h.secure + h.destination_port) ∷ []

pub bit_or-flag_bit :
    (flag : Bool) (port : ℕ) → port ≤ 127 → bit_or (flag_bit flag) port ≡ flag_bit flag + port
bit_or-flag_bit true port h = bit_or_shift 7 1 port (omega arith)
bit_or-flag_bit false port h = bit_or_shift 7 0 port (omega arith)

pub flag_bit_read :
    (flag : Bool) (port : ℕ) → port ≤ 127 → ((flag_bit flag + port) / 128 % 2 == 1) ≡ flag
flag_bit_read true port h = ground arith
flag_bit_read false port h = ground arith

pub port_read : (flag : Bool) (port : ℕ) → port ≤ 127 → (flag_bit flag + port) % 128 ≡ port
port_read true port h = omega arith
port_read false port h = omega arith

validate_port_source : (port : ℕ) → 1 ≤ port → port ≤ 127 → validate_port port true ≡ ok port
unfolding validate_port
validate_port_source port h k = ground arith

validate_port_destination : (port : ℕ) → port ≤ 127 → validate_port port false ≡ ok port
unfolding validate_port
validate_port_destination port h = ground arith

module _ (mtu max_pdu_size : ℕ) (p : BleOcfPdu) (s : Sendable mtu max_pdu_size p) where
  pub encode_header-header_of :
      (start : Bool) → encode_header (header_of p start) ≡ ok (header_bytes (header_of p start))
  unfolding encode_header
  encode_header-header_of start =
      rw
        (
          validate_port_source p.source_port s.source_some s.source_fits,
          validate_port_destination p.destination_port s.destination_fits,
          bit_or-flag_bit start p.source_port s.source_fits,
          bit_or-flag_bit p.secure p.destination_port s.destination_fits,
        )
        refl

  -- The header is read back, whatever follows it.
  pub decode_header-header_bytes :
      (start : Bool) (rest : Bytes)
      → decode_header (header_bytes (header_of p start) ++ rest) ≡ ok (header_of p start)
  unfolding decode_header
  decode_header-header_bytes start rest =
      let positive : ltb p.source_port 1 ≡ false = (let h = s.source_some in ground arith) in
      rw
        (
          port_read start p.source_port s.source_fits,
          positive,
          flag_bit_read start p.source_port s.source_fits,
          flag_bit_read p.secure p.destination_port s.destination_fits,
          port_read p.secure p.destination_port s.destination_fits,
        )
        refl

  pub fragment_pdu-fragment_valid : fragment_pdu p mtu max_pdu_size ≡ fragment_valid p mtu
  unfolding fragment_pdu validate_mtu validate_max_pdu_size coerce_bytes
  fragment_pdu-fragment_valid =
      let h1 = s.room in
      let h2 = s.mtu_fits in
      let h3 = s.bound_fits in
      let h4 = s.pdu_some in
      let h5 = s.pdu_fits in
      ground (
        arith,
        validate_port_source p.source_port s.source_some s.source_fits,
        validate_port_destination p.destination_port s.destination_fits,
      )
