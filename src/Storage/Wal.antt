-- ===== src/Storage/Wal.antt =====
-- The write-ahead log: src/wal_format.cpp, src/wal_format.hpp, include/nebulakv/wal_record.hpp,
-- `WalReader` and `RecoveryManager`. A file is the list of its bytes; reading it is taken to succeed.
pub mod Format
pub mod Reader
pub mod RoundTrip
pub mod Scan
pub mod Writer
pub mod Recovery
mod Tests
