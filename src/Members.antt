-- ===== src/Members.antt =====
-- internal/members: the points of a member and their ledger.
pub mod Points
pub mod Ledger
pub mod Balance
pub mod History
pub mod Once
