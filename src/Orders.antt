-- ===== src/Orders.antt =====
-- internal/orders: the order's states, its creation, progress and cancellation.
pub mod StateMachine
pub mod Reserve
pub mod Create
pub mod Replay
pub mod Release
pub mod Cancel
pub mod Transition
pub mod Lock
pub mod Refusals
