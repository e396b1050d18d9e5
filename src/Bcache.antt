-- ===== src/Bcache.antt =====
-- bio.c, buf.h, sleeplock.c and memide.c: the cache of disk blocks, its sleep locks, and the disk.
pub mod Sleep
pub mod Buf
pub mod Get
pub mod Release
pub mod View
pub mod Change
pub mod Find
pub mod Recycle
pub mod Front
pub mod Sync
pub mod Steps
pub mod Runs
mod Tests
