-- ===== src/Engine.antt =====
-- The storage engine's parts (src/engine) and the filter that its tables carry (src/util/bloom.rs).
pub mod Bincode
pub mod Codec
pub mod Payload
pub mod SsTable
pub mod Bytes
pub mod Bloom
pub mod Wal
pub mod Memtable
pub mod Compaction
