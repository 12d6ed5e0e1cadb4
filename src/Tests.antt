-- ===== src/Tests.antt =====
-- The theorems at concrete data.
mod Data
mod Store
mod Trades
mod Wire
mod Market
mod Orders
mod Feed
mod Trading
mod Quotes
mod Sessions
mod Routing
