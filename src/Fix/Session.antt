-- ===== src/Fix/Session.antt =====
-- The session of internal/fix/session.go: sequence numbers, heartbeats and reconnection.
pub mod Types
pub mod Sending
pub mod Handling
pub mod Reconnect
pub mod Sent
pub mod Talks
pub mod Numbers
pub mod Read
pub mod Stale
pub mod Backoff
pub mod Accepting
pub mod Inbound
