-- ===== src/Net.antt =====
-- The network of a workspace (src/msks/msks/net).
pub mod Bytes
pub mod Packet
pub mod Dnsmsg
pub mod Resolver
pub mod Forwarder
pub mod Dhcp
pub mod Flow
pub mod Slices
