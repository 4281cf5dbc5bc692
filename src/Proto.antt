-- ===== src/Proto.antt =====
-- The wire format of the RouterOS API: routeros/proto.
pub mod Length
pub mod Sentence
pub mod Reader
pub mod Writer
pub mod RoundTrip
