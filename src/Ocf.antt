-- ===== src/Ocf.antt =====
-- smartthings_local/ocf/: what runs on top of a session.
pub mod Keepalive
pub mod Dict
pub mod StateCache
pub mod PollScheduler
