-- ===== src/Capacity.antt =====
-- internal/orders and internal/worker: the capacity of the pickup slots.
pub mod Updates
pub mod Create
pub mod Operations
pub mod History
