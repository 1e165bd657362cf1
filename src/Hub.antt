-- ===== src/Hub.antt =====
-- The server: internal/transport/server*.go.
pub mod State
pub mod Pool
pub mod Names
pub mod Records
pub mod Router
pub mod Pumps
pub mod P2p
pub mod Session
pub mod Transfer
pub mod Udp
pub mod Listening
pub mod Owners
pub mod Joining
pub mod Returning
pub mod Sweeping
pub mod Relaying
pub mod Punching
