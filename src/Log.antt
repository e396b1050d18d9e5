-- ===== src/Log.antt =====
-- log.c: the write-ahead log over the buffer cache and the disk.
pub mod Disk
pub mod Ops
pub mod Copy
pub mod Find
pub mod Logical
pub mod Install
pub mod Recover
pub mod Commit
pub mod Crash
pub mod Write
pub mod Calls
pub mod Reserve
mod Tests
