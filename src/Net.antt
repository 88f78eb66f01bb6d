-- ===== src/Net.antt =====
-- network/src: buffers, devices, Ethernet and IP.
pub mod Buffer
pub mod Device
pub mod Ethernet
pub mod Ip
pub mod Udp
mod Tests
