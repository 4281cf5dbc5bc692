-- ===== src/Metrics.antt =====
-- Metrics built from properties of a reply: internal/metrics.
pub mod Context
pub mod Property
pub mod Builder
pub mod Ret
pub mod Counter
