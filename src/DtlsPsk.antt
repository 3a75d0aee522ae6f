-- ===== src/DtlsPsk.antt =====
-- smartthings_local/protocol/_dtls_psk.py: parts of the DTLS client for pre-shared keys.
pub mod ReplayWindow
pub mod Transform
pub mod Reassembly
pub mod Client
mod Examples
mod ClientExamples
