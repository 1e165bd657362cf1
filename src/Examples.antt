-- ===== src/Examples.antt =====
-- Concrete packets, ciphers and servers, and the theorems at work on them. The cipher appends a
-- tag of zeros, and the compressor knows runs of the byte 7.
pub mod Toys
pub mod Packets
pub mod Handshakes
pub mod Tunnels
pub mod Servers
pub mod Rooms
pub mod Clients
pub mod Displays
pub mod Connections
pub mod Scenes
pub mod Lifecycles
pub mod Endpoints
