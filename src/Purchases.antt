-- ===== src/Purchases.antt =====
-- internal/materials: the materials of a store, and its purchase lists.
pub mod Lists
pub mod Moves
pub mod Replay
pub mod Keeps
pub mod History
