-- ===== src/Access.antt =====
-- internal/authn: the limits on logins, and the sessions of the accounts.
pub mod Limiter
pub mod Window
pub mod Attempts
pub mod Sessions
pub mod Expiry
pub mod History
pub mod Admission
pub mod Logout
pub mod Roles
