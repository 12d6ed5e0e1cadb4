-- ===== src/Fix.antt =====
-- The FIX 4.4 transport of the Bybit adapter: internal/fix.
pub mod Decimal
pub mod Bytes
pub mod Codec
pub mod Framer
pub mod Session
pub mod Orders
