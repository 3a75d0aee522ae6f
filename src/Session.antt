-- ===== src/Session.antt =====
-- smartthings_local/protocol/dtls_session.py: parts of DtlsCoapSession that compute without the connection.
pub mod Observe
pub mod Mids
pub mod Pending
pub mod Relations
pub mod Recording
pub mod Refetch
pub mod Dispatch
pub mod Worker
pub mod Upload
pub mod Read
pub mod DispatchExamples
pub mod ReadExamples
pub mod Blocks
pub mod Examples
