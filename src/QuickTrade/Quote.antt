-- ===== src/QuickTrade/Quote.antt =====
-- How a quote is made and checked again: internal/quicktrade/quote.go.
pub mod Types
pub mod Numbers
pub mod Inputs
pub mod Planning
pub mod Create
pub mod Validate
