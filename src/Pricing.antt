-- ===== src/Pricing.antt =====
-- internal/pricing: the pricing engine.
pub mod Types
pub mod Validate
pub mod Price
pub mod Settle
pub mod Discount
pub mod Sort
pub mod Scenario
pub mod Selected
pub mod Sound
pub mod Bounds
pub mod Exact
pub mod Total
