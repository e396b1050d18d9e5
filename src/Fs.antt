-- ===== src/Fs.antt =====
-- fs.c: blocks and the bitmap of those in use, and the blocks of a file. An operation works on the
-- blocks as the buffer cache holds them; log_write of log.c makes a changed block part of the
-- transaction, and the locks of inodes and buffers are held throughout.
pub mod Disk
pub mod Bits
pub mod Bitmap
pub mod Bmap
pub mod Grow
pub mod Lookup
pub mod Found
pub mod Rw
pub mod Reads
pub mod Writes
pub mod Path
pub mod Elements
pub mod Namex
mod Tests
