-- ===== src/Vm/Layout.antt =====
-- mmu.h and memlayout.h: addresses and the words of page tables.
use xv.Common.{ℕ, ◌+◌, ◌-◌, ◌/◌, ◌%◌, ◌^◌, Bool, ◌==◌, if◌then◌else◌}
use xv.Kalloc.{kernbase, pgsize}

abbrev pub npdentries : ℕ
npdentries = 1024

abbrev pub pdx : ℕ → ℕ
pdx va = va / 4194304 % 1024

abbrev pub ptx : ℕ → ℕ
ptx va = va / 4096 % 1024

abbrev pub pg_round_down : ℕ → ℕ
pg_round_down a = a - a % pgsize

-- pte & PTE_P
abbrev pub is_present : ℕ → Bool
is_present pte = pte % 2 == 1

-- pte & PTE_U
abbrev pub is_user : ℕ → Bool
is_user pte = pte / 4 % 2 == 1

abbrev pub pte_addr : ℕ → ℕ
pte_addr pte = pte - pte % 4096

abbrev pub pte_flags : ℕ → ℕ
pte_flags pte = pte % 4096

abbrev pub p2v : ℕ → ℕ
p2v a = (a + kernbase) % 2 ^ 32

-- PTE_P | PTE_W | PTE_U and PTE_W | PTE_U
abbrev pub pte_pwu : ℕ
pte_pwu = 7

abbrev pub pte_wu : ℕ
pte_wu = 6

-- pa | perm | PTE_P, for the address of a page and flags, which share no bits
abbrev pub mk_pte : (pa perm : ℕ) → ℕ
mk_pte pa perm = pa + (if perm % 2 == 0 then perm + 1 else perm)
