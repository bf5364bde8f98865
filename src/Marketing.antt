-- ===== src/Marketing.antt =====
-- internal/marketing: the coupons of a customer.
pub mod Coupons
pub mod Claims
pub mod Steps
pub mod History
