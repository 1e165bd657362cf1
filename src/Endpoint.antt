-- ===== src/Endpoint.antt =====
-- The client: its packets, its control messages, its peers, its TUN device and its configuration.
pub mod Checksum
pub mod OnesComplement
pub mod Attempts
pub mod Reconnecting
pub mod Dns
pub mod Transport
pub mod Peers
pub mod Sending
pub mod Receiving
pub mod Control
pub mod Punching
pub mod Delivery
pub mod Introducing
pub mod Greeting
pub mod Resolving
pub mod Shared
pub mod Ticking
pub mod Device
pub mod Testing
pub mod Closing
pub mod Setup
pub mod Fitting
pub mod Batching
pub mod Windows
pub mod Multicast
pub mod Config
pub mod Backoff
