-- ===== src/Noise.antt =====
-- The Noise sessions between two clients: internal/protocol/noise.go.
pub mod Library
pub mod Session
pub mod Manager
pub mod Steps
pub mod Agreement
pub mod Collision
pub mod Repeat
pub mod Secured
pub mod Spared
pub mod Keeping
pub mod Events
