-- ===== src/Convert.antt =====
-- Values of the RouterOS API as numbers: internal/convert.
pub mod Numbers
pub mod Duration
pub mod Values
pub mod Times
