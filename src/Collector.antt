-- ===== src/Collector.antt =====
-- The collection from devices: internal/collector.
pub mod Version
pub mod Gather
pub mod Device
pub mod Connect
pub mod Collect
pub mod Exporter
pub mod Scrape
