-- ===== src/Tunnel.antt =====
-- internal/stun/server.go: the tunnels that the server knows, one for each pair of clients.
pub mod Key
pub mod Manager
pub mod Laws
pub mod Removal
pub mod Table
