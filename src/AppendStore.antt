-- ===== src/AppendStore.antt =====
-- append-store/: the store of records, its types, index, codec and chunks.
pub mod Types
pub mod Names
pub mod Index
pub mod Codec
pub mod Chunk
pub mod Store
pub mod Scanner
