-- ===== src/AppendStore/Types.antt =====
-- append-store/append_store_types.h and .cpp
pub mod Handle
pub mod HandleLaws
pub mod MetaData
pub mod Records
pub mod RecordLaws
pub mod Cache
