-- ===== src/Coap.antt =====
-- smartthings_local/protocol/coap.py: the CoAP wire format, stateless but for `Block2Accumulator`.
pub mod Options
pub mod Wire
pub mod Block
pub mod Response
pub mod Placement
pub mod Accumulator
pub mod Flight
pub mod Request
mod Examples
mod TransferExamples
mod RequestExamples
