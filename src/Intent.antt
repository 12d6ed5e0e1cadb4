-- ===== src/Intent.antt =====
-- The durable intent store, internal/intent.
pub mod Types
pub mod Status
pub mod Disk
pub mod Plans
pub mod Evolution
pub mod Confirm
pub mod Trades
pub mod History
