-- ===== src/CoapTcp.antt =====
-- smartthings_local/protocol/coap_tcp.py: CoAP over a byte stream, with a length prefix.
pub mod Options
pub mod Frame
pub mod Stream
pub mod Csm
pub mod Requests
pub mod Examples
