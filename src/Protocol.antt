-- ===== src/Protocol.antt =====
-- internal/protocol: the frames between the daemon and its workers, and the scan that every JSON
-- text from a worker or a provider passes before it is decoded.
pub mod Json
pub mod Accepts
pub mod Frames
