-- ===== src/Tests.antt =====
-- The theorems on concrete inputs.
mod Proto
mod Client
mod Convert
mod Metrics
mod Config
mod Collector
mod Samples
mod Feature
