-- ===== src/Snapshot.antt =====
-- snapshot/: the deduplicating snapshot writer and reader, and what they keep for a snapshot.
pub mod BitSet
pub mod Bloom
pub mod Trace
pub mod Types
pub mod DataSource
