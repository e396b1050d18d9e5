-- ===== src/Proc.antt =====
-- proc.c: the process table, its operations and the schedulers.
pub mod Table
pub mod Life
pub mod Sched
pub mod Select
pub mod Scan
pub mod Round
pub mod Turn
pub mod ExitWait
mod Tests
