-- ===== src/Ble.antt =====
-- smartthings_local/protocol/ble_ocf.py: the framing of OCF PDUs over Bluetooth.
pub mod Frame
pub mod Reassembler
pub mod Examples
