-- ===== src/Staff.antt =====
-- internal/platform: who works in a store, and the applications to open or to join one.
pub mod Members
pub mod Applications
pub mod Owner
pub mod History
