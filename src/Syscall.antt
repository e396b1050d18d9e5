-- ===== src/Syscall.antt =====
-- syscall.c and part of sysfile.c: the arguments of system calls, which come from user memory, and
-- the calls on file descriptors. The bytes of the process that lie below its size are readable.
pub mod Args
pub mod Fd
pub mod Fetch
pub mod Dup
pub mod Close
mod Tests
