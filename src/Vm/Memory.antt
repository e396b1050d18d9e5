-- ===== src/Vm/Memory.antt =====
-- Words and pages of memory that do not overlap.
use xv.Common.{ℕ, ◌+◌, ◌*◌, ◌%◌, ◌^◌, ◌≤◌, ◌<◌, ◌≡◌, ◌≢◌, arith, ◌⊎◌, inl, inr}
use xv.Strings.{Memory, store32, load32, memset}
use xv.Strings.Fill.{memset-Filled}
use xv.Kalloc.{pgsize, kernbase, phystop}

-- A page that kalloc.c may hold.
pub record IsPage (v : ℕ) : Type 0 where
  pub aligned : v % pgsize ≡ 0
  pub above : kernbase ≤ v
  pub below : v < kernbase + phystop

pub load32-store32 : (m : Memory) (a w : ℕ) → w < 2 ^ 32 → load32 (store32 m a w) a ≡ w
load32-store32 m a w h = ground arith

pub load32-store32_apart :
    (m : Memory) (a w b : ℕ) → (a + 4 ≤ b) ⊎ (b + 4 ≤ a) → load32 (store32 m a w) b ≡ load32 m b
load32-store32_apart m a w b (inl h) = ground arith
load32-store32_apart m a w b (inr h) = ground arith

-- Two words of tables in pages.
pub words_apart :
    (p q i j : ℕ)
    → p % pgsize ≡ 0
    → q % pgsize ≡ 0
    → i < 1024
    → j < 1024
    → (p ≢ q) ⊎ (i ≢ j)
    → (p + 4 * i + 4 ≤ q + 4 * j) ⊎ (q + 4 * j + 4 ≤ p + 4 * i)
words_apart p q i j hp hq hi hj (inl ne) = ground arith
words_apart p q i j hp hq hi hj (inr ne) = ground arith

pub load32-memset_zero :
    (m : Memory) (p i : ℕ) → i < 1024 → load32 (memset m p 0 pgsize) (p + 4 * i) ≡ 0
load32-memset_zero m p i h =
    let byte : (b : ℕ) → p ≤ b → b < p + pgsize → memset m p 0 pgsize b ≡ 0 =
      (memset-Filled m p 0 pgsize).inside in
    omega (
      arith,
      byte (p + 4 * i) (omega arith) (omega arith),
      byte (p + 4 * i + 1) (omega arith) (omega arith),
      byte (p + 4 * i + 2) (omega arith) (omega arith),
      byte (p + 4 * i + 3) (omega arith) (omega arith),
    )

pub load32-memset_apart :
    (m : Memory) (p c q i : ℕ)
    → p % pgsize ≡ 0
    → q % pgsize ≡ 0
    → i < 1024
    → p ≢ q
    → load32 (memset m p c pgsize) (q + 4 * i) ≡ load32 m (q + 4 * i)
load32-memset_apart m p c q i hp hq h ne =
    let f = memset-Filled m p c pgsize in
    let o : (b : ℕ) → q ≤ b → b < q + pgsize → memset m p c pgsize b ≡ m b =
      λ b lo hi. f.outside b (ground arith) in
    omega (
      arith,
      o (q + 4 * i) (omega arith) (omega arith),
      o (q + 4 * i + 1) (omega arith) (omega arith),
      o (q + 4 * i + 2) (omega arith) (omega arith),
      o (q + 4 * i + 3) (omega arith) (omega arith),
    )
