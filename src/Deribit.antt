-- ===== src/Deribit.antt =====
-- The Deribit adapter: internal/deribit.
pub mod Book
