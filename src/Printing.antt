-- ===== src/Printing.antt =====
-- internal/printing: receipts and printers.
pub mod Receipt
pub mod Digits
