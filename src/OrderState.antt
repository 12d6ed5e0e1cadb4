-- ===== src/OrderState.antt =====
-- The persisted state of orders and executions: internal/orderstate, with the records and keys of
-- internal/domain.
pub mod Types
pub mod Accounts
pub mod Transitions
pub mod Service
pub mod Orders
pub mod Filling
pub mod Executions
