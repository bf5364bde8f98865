-- ===== src/Pickup.antt =====
-- internal/pickup: the opening hours of a store and the pickup slots of a day.
pub mod Hours
pub mod Slots
pub mod Grid
