-- ===== src/Kalloc/Range.antt =====
-- What freerange puts on the list of free pages.
use xv.Common.{
  ℕ, zero, suc, ◌+◌, ◌-◌, ◌*◌, ◌/◌, ◌%◌, ◌≤◌, ◌<◌, ◌≡◌, refl, ap, ap₂, ◌∙◌, arith, true, false,
  List, [], ◌∷◌, ◌++◌, leb, ok,
}
use xv.Strings.{memset}
use xv.Kalloc.{pgsize, kernbase, phystop, pg_round_up, Kmem, is_bad, kfree, free_from, freerange}

-- `n` pages from `p` on, the last one first
abbrev pub pages : (p n : ℕ) → List ℕ
pages p zero = []
pages p (suc n) = (p + n * pgsize) ∷ pages p n

pages-first :
    (p n : ℕ) (rest : List ℕ) → pages (p + pgsize) n ++ (p ∷ rest) ≡ pages p (suc n) ++ rest
pages-first p zero rest = ap (λ a. a ∷ rest) (omega arith)
pages-first p (suc n) rest = ap₂ ◌∷◌ (omega arith) (pages-first p n rest)

is_bad_lem :
    (end v : ℕ)
    → v % pgsize ≡ 0
    → end ≤ v
    → kernbase ≤ v
    → v < kernbase + phystop
    → is_bad end v ≡ false
is_bad_lem end v aligned low base high = ground arith

free_from_lem :
    (end rounds p vend n : ℕ) (k : Kmem)
    → n < rounds
    → n * pgsize ≤ vend - p
    → vend < p + suc n * pgsize
    → p % pgsize ≡ 0
    → end ≤ p
    → kernbase ≤ p
    → vend ≤ kernbase + phystop
    → (k' : Kmem) × (free_from end rounds p vend k ≡ ok k')
      × (k'.freelist ≡ pages p n ++ k.freelist)
      × (k'.use_lock ≡ k.use_lock)
unfolding free_from kfree
free_from_lem end zero p vend n k h lo hi al e b t = absurd (omega arith)
free_from_lem end (suc rounds) p vend zero k h lo hi al e b t = (k, ground arith, refl, refl)
free_from_lem end (suc rounds) p vend (suc n) k h lo hi al e b t =
    let k₁ : Kmem = record k { memory = memset k.memory p 1 pgsize; freelist = p ∷ k.freelist } in
    let (k', run, list, lock) =
      free_from_lem end rounds (p + pgsize) vend n k₁ (omega arith) (omega arith) (omega arith)
        (omega arith) (omega arith) (omega arith) t in
    let good : is_bad end p ≡ false = is_bad_lem end p al e b (omega arith) in
    let more : leb (p + pgsize) vend ≡ true = ground arith in
    (k', rw more (rw good run), list ∙ pages-first p n k.freelist, lock)

-- For a range between the end of the kernel and the top of physical memory, freerange does not
-- panic, its loop ends, and it puts on the list exactly the whole pages of the range, from the first
-- aligned address on; use_lock stays.
pub freerange-pages :
    (end vstart vend : ℕ) (k : Kmem)
    → kernbase ≤ end
    → end ≤ vstart
    → vstart ≤ vend
    → vend ≤ kernbase + phystop
    → (k' : Kmem) × (freerange end vstart vend k ≡ ok k')
      × (k'.freelist
          ≡ pages (pg_round_up vstart) ((vend - pg_round_up vstart) / pgsize) ++ k.freelist)
      × (k'.use_lock ≡ k.use_lock)
unfolding freerange
freerange-pages end vstart vend k base low order top =
    let p = pg_round_up vstart in
    let aligned : p % pgsize ≡ 0 = omega arith in
    free_from_lem end (vend / pgsize + 1) p vend ((vend - p) / pgsize) k (omega arith) (omega arith)
      (omega arith) aligned (omega arith) (omega arith) top
