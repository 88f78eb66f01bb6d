-- ===== src/Tcp.antt =====
-- network/src/tcp.c: the receive buffers, the segments, the connections and their states.
pub mod Buffer
pub mod Loops
pub mod Stream
pub mod Socket
pub mod Checksum
pub mod Segment
pub mod Process
pub mod Receive
pub mod Ports
pub mod Calls
pub mod Connect
pub mod Moves
pub mod Steps
pub mod Isolation
pub mod Delivery
pub mod Wire
pub mod FreePort
pub mod Opening
pub mod Handshake
mod Tests
