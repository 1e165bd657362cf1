-- ===== src/Packet.antt =====
-- internal/protocol/packet.go and compress.go: the packets of both planes.
pub mod PType
pub mod Header
pub mod Codec
pub mod Compress
pub mod Wire
pub mod RoundTrip
pub mod Sealed
pub mod EndToEnd
pub mod Frames
