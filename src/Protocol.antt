-- ===== src/Protocol.antt =====
-- protocol.rs: the versioned contract between the daemon and its clients.
pub mod Anchor
pub mod Message
pub mod Request
pub mod Diff
