-- ===== src/Kalloc.antt =====
-- kalloc.c: the allocator of physical pages.
pub mod Range
pub mod Pages
mod Tests
use xv.Common.{
  ℕ, zero, suc, ◌+◌, ◌-◌, ◌*◌, ◌/◌, ◌%◌, ◌^◌, Bool, true, false, ◌||◌, not, Option, none, some,
  List, [], ◌∷◌, ◌==◌, ltb, leb, if◌then◌else◌, Outcome, ok, panic, ◌>>=◌,
}
use xv.Strings.{Memory, memset}

abbrev pub pgsize : ℕ
pgsize = 4096

abbrev pub kernbase : ℕ
kernbase = 0x80000000

abbrev pub phystop : ℕ
phystop = 0xE000000

-- uint subtraction
abbrev pub v2p : ℕ → ℕ
v2p a = (a + 2 ^ 32 - kernbase) % 2 ^ 32

-- (sz + PGSIZE - 1) & ~(PGSIZE - 1), in 32 bits
abbrev pub pg_round_up : ℕ → ℕ
pg_round_up sz = let n = (sz + 4095) % 2 ^ 32 in n - n % pgsize

-- `kmem` and the memory it hands out. The list is given by the addresses of its pages, in the order
-- of the `next` pointers; those words, which lie in free pages only, are not written to `memory`.
-- `use_lock` says whether the lock is taken, which the routines, run one at a time, do not show.
pub record Kmem : Type 0 where
  pub memory : Memory
  pub freelist : List ℕ
  pub use_lock : Bool

-- the test of kfree; `end` is the first address after the kernel
abbrev pub is_bad : (end v : ℕ) → Bool
is_bad end v = not (v % pgsize == 0) || ltb v end || leb phystop (v2p v)

unfoldable pub kfree : (end v : ℕ) → Kmem → Outcome Kmem
kfree end v k =
    if is_bad end v
    then panic
    else ok (record k { memory = memset k.memory v 1 pgsize; freelist = v ∷ k.freelist })

-- freerange from the head of its loop, `rounds` bounding the rounds
unfoldable pub free_from : (end : ℕ) (rounds p vend : ℕ) → Kmem → Outcome Kmem
free_from end zero p vend k = ok k
free_from end (suc rounds) p vend k =
    let step = kfree end p k >>= λ k'. free_from end rounds (p + pgsize) vend k' in
    if leb (p + pgsize) vend then step else ok k

-- The loop runs at most (vend - vstart) / PGSIZE times.
unfoldable pub freerange : (end vstart vend : ℕ) → Kmem → Outcome Kmem
freerange end vstart vend k = free_from end (vend / pgsize + 1) (pg_round_up vstart) vend k

unfoldable pub kinit1 : (end vstart vend : ℕ) → Kmem → Outcome Kmem
kinit1 end vstart vend k = freerange end vstart vend (record k { use_lock = false })

unfoldable pub kinit2 : (end vstart vend : ℕ) → Kmem → Outcome Kmem
kinit2 end vstart vend k = freerange end vstart vend k >>= λ k'. ok (record k' { use_lock = true })

-- kalloc: the first page of the list, 0 if there is none
unfoldable pub kalloc : Kmem → ℕ × Kmem
kalloc k = elim k.freelist [ [] ↦ (0, k) | p ∷ ps ↦ (p, record k { freelist = ps }) ]
