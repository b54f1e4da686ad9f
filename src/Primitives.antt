-- ===== src/Primitives.antt =====
-- crates/primitives: digests, keys and the consensus part of the block header.
pub mod Digest
pub mod Header
