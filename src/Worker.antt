-- ===== src/Worker.antt =====
-- internal/worker: the handlers of the background process.
pub mod Payment
pub mod Expire
pub mod Queue
pub mod Outbox
pub mod Selection
pub mod Retry
