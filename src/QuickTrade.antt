-- ===== src/QuickTrade.antt =====
-- The application layer over the intent store: internal/quicktrade/application.go.
pub mod Quote
pub mod Reviewed
pub mod Cache
pub mod Application
pub mod Submission
