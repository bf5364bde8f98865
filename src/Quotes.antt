-- ===== src/Quotes.antt =====
-- internal/pricing/quote.go: the quotes.
pub mod Store
pub mod Tokens
