-- ===== src/Storage.antt =====
-- The storage engine below the replication layer (src/*.cpp, include/nebulakv/*.hpp).
pub mod Validation
pub mod MemTable
pub mod MemTableSet
pub mod Checksum
pub mod Wal
pub mod BlockCache
pub mod BloomFilter
pub mod SsTable
pub mod Manifest
