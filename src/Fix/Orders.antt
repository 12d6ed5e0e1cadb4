-- ===== src/Fix/Orders.antt =====
-- The order router of internal/fix/orders.go: orders over a FIX session, with the order state.
pub mod Types
pub mod Router
pub mod Reports
pub mod Placing
pub mod Recording
