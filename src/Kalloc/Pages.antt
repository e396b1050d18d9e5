-- ===== src/Kalloc/Pages.antt =====
-- No page is handed out twice: kalloc and kfree only move pages between the list and their owners.
use mathlib.Core.List.{Perm, perm_middle, Mem, Nodup, mem-cons_self, mem-append, Nodup-append}
use mathlib.Core.List.Perm
use mathlib.Core.Logic.Or
use mathlib.Core.Logic.{inl, inr}
use xv.Common.{
  ℕ, ◌≡◌, ◌≢◌, refl, sym, ap, ap₂, ◌∙◌, ◌%◌, ◌≤◌, arith, Bool-cases, inl, inr, List, [], ◌∷◌, ◌++◌,
  ok,
}
use xv.Kalloc.{pgsize, Kmem, is_bad, kfree, kalloc}

-- `held` lists the pages that were handed out and not yet given back.
pub record System : Type 0 where
  pub kmem : Kmem
  pub held : List ℕ

-- The steps of clients that give back only pages they hold.
pub data Step (end : ℕ) : System → System → Type 0 where
  alloc :
      (s : System) (v : ℕ) (k : Kmem)
      → kalloc s.kmem ≡ (v, k)
      → v ≢ 0
      → Step end s (record { kmem = k; held = v ∷ s.held })
  refused : (s : System) (k : Kmem) → kalloc s.kmem ≡ (0, k) → Step end s (record s { kmem = k })
  free :
      (s : System) (before after : List ℕ) (v : ℕ) (k : Kmem)
      → s.held ≡ before ++ (v ∷ after)
      → kfree end v s.kmem ≡ ok k
      → Step end s (record { kmem = k; held = before ++ after })

pub data Reach (end : ℕ) (s : System) : System → Type 0 where
  here : Reach end s s
  next : {t u : System} → Reach end s t → Step end t u → Reach end s u

abbrev pub all_pages : System → List ℕ
all_pages s = s.kmem.freelist ++ s.held

kalloc_pages :
    (k : Kmem) (pages : List ℕ) {v : ℕ} {k' : Kmem}
    → k.freelist ≡ pages
    → kalloc k ≡ (v, k')
    → v ≢ 0
    → k.freelist ≡ v ∷ k'.freelist
unfolding kalloc
kalloc_pages k [] {v} {k'} f e ne =
    let none : kalloc k ≡ (0, k) = rw f in absurd (ne (ap (λ r. r.0) (sym e ∙ none)))
kalloc_pages k (p ∷ ps) {v} {k'} f e ne =
    let first : kalloc k ≡ (p, record k { freelist = ps }) = rw f in
    let e' = sym first ∙ e in f ∙ ap₂ ◌∷◌ (ap (λ r. r.0) e') (ap (λ r. r.1.freelist) e')

-- A kalloc that returns 0 leaves the allocator as it was, but for a list that begins with page 0.
kalloc_none :
    (k : Kmem) (pages : List ℕ) {k' : Kmem}
    → k.freelist ≡ pages
    → ¬ Mem 0 pages
    → kalloc k ≡ (0, k')
    → k' ≡ k
unfolding kalloc
kalloc_none k [] {k'} f no_zero e =
    let none : kalloc k ≡ (0, k) = rw f in sym (ap (λ r. r.1) (sym none ∙ e))
kalloc_none k (p ∷ ps) {k'} f no_zero e =
    let first : kalloc k ≡ (p, record k { freelist = ps }) = rw f in
    let zero_page : 0 ≡ p = ap (λ r. r.0) (sym e ∙ first) in
    absurd (no_zero (rw zero_page mem-cons_self))

kfree_pages :
    (end v : ℕ) (k : Kmem) {k' : Kmem}
    → kfree end v k ≡ ok k'
    → (k'.freelist ≡ v ∷ k.freelist) × (v % pgsize ≡ 0) × (end ≤ v)
unfolding kfree
kfree_pages end v k {k'} e = elim (Bool-cases (is_bad end v)) [
  | inl bad ↦ ground arith
  | inr good ↦ (ground arith, ground arith, ground arith)
]

Step-Perm :
    {end : ℕ} {s t : System}
    → ¬ Mem 0 (all_pages s)
    → Step end s t
    → Perm (all_pages s) (all_pages t)
Step-Perm no_zero (alloc s v k e ne) =
    rw (kalloc_pages s.kmem s.kmem.freelist refl e ne) (Perm.symm (perm_middle k.freelist s.held))
Step-Perm {end} no_zero (refused s k e) =
    rw (kalloc_none s.kmem s.kmem.freelist refl (λ m. no_zero (mem-append.1 (Or.inl m))) e)
      (Perm.refl (all_pages s))
Step-Perm {end} no_zero (free s before after v k h e) =
    rw ((kfree_pages end v s.kmem e).0, h)
      (Perm.trans (Perm.append_left s.kmem.freelist (perm_middle before after))
        (perm_middle s.kmem.freelist (before ++ after)))

pub Reach-Perm :
    {end : ℕ} {s t : System}
    → ¬ Mem 0 (all_pages s)
    → Reach end s t
    → Perm (all_pages s) (all_pages t)
Reach-Perm {s} no_zero here = Perm.refl (all_pages s)
Reach-Perm no_zero (next reach step) =
    let before = Reach-Perm no_zero reach in
    Perm.trans before (Step-Perm (λ m. no_zero ((Perm.mem_iff before).1 m)) step)

-- Where all pages, free or held, are different and none is at 0, and clients give back only pages
-- they hold, then after any run of calls of kalloc and kfree a page that kalloc returns is held by
-- nobody, and is one of the pages there were at the start.
pub kalloc_fresh :
    {end : ℕ} {s t : System} {v : ℕ} {k : Kmem}
    → Nodup (all_pages s)
    → ¬ Mem 0 (all_pages s)
    → Reach end s t
    → kalloc t.kmem ≡ (v, k)
    → v ≢ 0
    → (¬ Mem v t.held) × Mem v (all_pages s)
kalloc_fresh {s} {t} {v} {k} distinct no_zero reach e ne =
    let perm = Reach-Perm no_zero reach in
    let list = kalloc_pages t.kmem t.kmem.freelist refl e ne in
    let split = Nodup-append.0 (Perm.nodup perm distinct) in
    let free : Mem v t.kmem.freelist = rw list mem-cons_self in
    (λ held. split.2 v free held, (Perm.mem_iff perm).1 (mem-append.1 (Or.inl free)))
