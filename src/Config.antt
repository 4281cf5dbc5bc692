-- ===== src/Config.antt =====
-- The configuration: internal/config.
pub mod Features
pub mod Device
pub mod Version
pub mod Load
