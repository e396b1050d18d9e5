-- ===== src/Vm.antt =====
-- vm.c: page tables of two levels in the memory that kalloc.c hands out. A pointer is an address of
-- the kernel; an entry of a table is a word of memory, a physical address and flags.
pub mod Layout
pub mod Memory
pub mod Space
pub mod Tables
pub mod Find
pub mod Map
pub mod Pages
pub mod Walk
pub mod Fresh
pub mod User
pub mod Grow
mod Tests
