-- ===== src/Protocol.antt =====
-- protocol: the blocks that wait to be written.
pub mod Queue
