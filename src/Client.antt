-- ===== src/Client.antt =====
-- The RouterOS client: routeros.
pub mod Reply
pub mod Session
