-- ===== src/Payments.antt =====
-- internal/payments, internal/refunds and the handlers that call them: the tables of the payments, and what is
-- shown of them.
pub mod Store
pub mod Refunds
pub mod Callback
pub mod Handlers
pub mod Frames
pub mod Sound
pub mod Refunded
pub mod Webhooks
pub mod Beside
pub mod Refunding
pub mod History
pub mod Delivery
