-- ===== src/Feature.antt =====
-- The collectors of internal/collectors, one for each feature.
pub mod Base
pub mod Chain
pub mod Common
pub mod Undescribed
pub mod System
pub mod Tools
pub mod Network
pub mod Routing
pub mod Security
pub mod Tunnels
pub mod Ethernet
pub mod Wireless
pub mod Radio
pub mod Services
pub mod Queues
pub mod Remote
pub mod Registry
pub mod Addressing
pub mod Leases
