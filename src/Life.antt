-- ===== src/Life.antt =====
-- internal/orders and internal/worker: the life of an order through every operation on it.
pub mod Moves
pub mod Rows
pub mod Updates
pub mod Orders
pub mod Worker
pub mod Create
pub mod History
