-- ===== src/Net/Ip.antt =====
-- Addresses, the protocol table, ip_tx and ip_rx of network/src/ip.c.
pub mod Address
pub mod Packet
pub mod Wire
pub mod Delivery
pub mod Registry
pub mod Functions
