-- ===== src/Protocol.antt =====
-- The protocol package: the wire format of messages (protocol/message.go, protocol/compressor.go).
pub mod Wire
pub mod Slice
pub mod Header
pub mod Metadata
pub mod Message
mod Tests
