-- ===== src/Stock.antt =====
-- The books of the stock: what `daily_inventory` says of a SKU's day against the reservations behind it.
-- It relates internal/orders/create.go, internal/orders/cancel.go, internal/worker/worker.go and
-- internal/inventory/store.go, which all write these two tables.
pub mod Books
pub mod Sell
pub mod Release
pub mod Expire
pub mod Reserve
pub mod Trade
pub mod Adjust
pub mod History
pub mod Outbox
