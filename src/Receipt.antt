-- ===== src/Receipt.antt =====
-- internal/receipt: the receipt, its checks, and how it is built.
pub mod Model
pub mod Validate
pub mod Build
