-- ===== src/Storage.antt =====
-- storage/storage.go.
pub mod Bolt
pub mod Defs
pub mod Reads
pub mod Crash
