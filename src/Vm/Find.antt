-- ===== src/Vm/Find.antt =====
-- walkpgdir finds the entry for an address, and what is mapped does not change.
use mathlib.Core.Path.{subst}
use mathlib.Core.List.{Mem, mem-cons_self, mem-cons_of_mem}
use xv.Common.{
  ℕ, ◌+◌, ◌*◌, ◌≤◌, ◌<◌, ◌≡◌, refl, sym, arith, inl, inr, true, false, Bool-cases, Option, none,
  some, length, List, [], ◌∷◌, ◌==◌,
}
use xv.Kalloc.{Kmem, kalloc}
use xv.Vm.Layout.{pdx, ptx, is_present}
use xv.Vm.Walk.{new_table, walkpgdir}
use xv.Vm.Memory.{IsPage}
use xv.Vm.Space.{dir_entry, table, entry_for, IsSpace}
use xv.Vm.Tables.{with_table, entry_for-new, IsSpace-new, present_new, table_new}

-- What walkpgdir with `alloc` set gives: the entry for the address, in a table that is there or new.
pub data Walked (k : Kmem) (pgdir va : ℕ) : Option ℕ × Kmem → Type 0 where
  no_memory : k.freelist ≡ [] → Walked k pgdir va (none, k)
  at_entry :
      (k' : Kmem)
      → IsSpace k' pgdir
      → is_present (dir_entry k'.memory pgdir (pdx va)) ≡ true
      → ((va' : ℕ) → entry_for k'.memory pgdir va' ≡ entry_for k.memory pgdir va')
      → ((v : ℕ) → Mem v k'.freelist → Mem v k.freelist)
      → length k.freelist ≤ length k'.freelist + 1
      → Walked k pgdir va (some (table k'.memory pgdir (pdx va) + 4 * ptx va), k')

pub nonzero_page : (p : ℕ) → IsPage p → (p == 0) ≡ false
nonzero_page p h = ground (arith, h.above)

pub kalloc_none : (k : Kmem) → k.freelist ≡ [] → kalloc k ≡ (0, k)
unfolding kalloc
kalloc_none k e = rw e

pub kalloc_first :
    (k : Kmem) (p : ℕ) (ps : List ℕ)
    → k.freelist ≡ p ∷ ps
    → kalloc k ≡ (p, record k { freelist = ps })
unfolding kalloc
kalloc_first k p ps e = rw e

pub one_less :
    (k : Kmem) (p : ℕ) (ps : List ℕ) → k.freelist ≡ p ∷ ps → length k.freelist ≤ length ps + 1
one_less k p ps e = rw e (omega arith)

new_table-none : (pde : ℕ) (k : Kmem) → k.freelist ≡ [] → new_table pde k ≡ (none, k)
unfolding new_table
new_table-none pde k e = rw (kalloc_none k e, new_table) refl

new_table-some :
    (pgdir d : ℕ) (k : Kmem) (p : ℕ) (ps : List ℕ)
    → (s : IsSpace k pgdir) → (e : k.freelist ≡ p ∷ ps) → (h : d < 1024)
    → (absent : is_present (dir_entry k.memory pgdir d) ≡ false)
    → new_table (pgdir + 4 * d) k ≡ (some p, with_table k pgdir d p ps s e h absent)
unfolding new_table
new_table-some pgdir d k p ps s e h absent =
    rw (kalloc_first k p ps e, new_table)
      (rw (nonzero_page p (s.free p (subst (Mem p) (sym e) mem-cons_self))) refl)

-- On page tables whose pages are not free and not used twice, walkpgdir with `alloc` set fails only where
-- no page is free; else it gives the address of the entry for `va`, takes at most one page, and every
-- address is mapped as before.
pub walkpgdir-Walked :
    (k : Kmem) (pgdir va : ℕ) → IsSpace k pgdir → Walked k pgdir va (walkpgdir pgdir va true k)
unfolding walkpgdir
walkpgdir-Walked k pgdir va s = elim (Bool-cases (is_present (dir_entry k.memory pgdir (pdx va)))) [
  | inl there ↦ rw there (at_entry k s there (λ va'. refl) (λ v m. m) (omega arith))
  | inr absent ↦ rw absent (go absent k.freelist refl)
]
  where
    after : Option ℕ × Kmem → Option ℕ × Kmem
    after (o, k') = elim o [ none ↦ (none, k') | some p ↦ (some (p + 4 * ptx va), k') ]

    go :
        is_present (dir_entry k.memory pgdir (pdx va)) ≡ false
        → (free : List ℕ) → k.freelist ≡ free
        → Walked k pgdir va (after (new_table (pgdir + 4 * pdx va) k))
    go absent [] e =
        subst (λ r. Walked k pgdir va (after r)) (sym (new_table-none _ k e)) (no_memory e)
    go absent (p ∷ ps) e =
        let in_dir : pdx va < 1024 = omega arith in
        let k' = with_table k pgdir (pdx va) p ps s e in_dir absent in
        subst (λ r. Walked k pgdir va (after r))
          (sym (new_table-some pgdir (pdx va) k p ps s e in_dir absent))
          (subst (λ t. Walked k pgdir va (some (t + 4 * ptx va), k'))
            (table_new k pgdir (pdx va) p ps s e in_dir absent)
            (at_entry k' (IsSpace-new k pgdir (pdx va) p ps s e in_dir absent)
              (present_new k pgdir (pdx va) p ps s e in_dir absent)
              (entry_for-new k pgdir (pdx va) p ps s e in_dir absent)
              (λ v m. subst (Mem v) (sym e) (mem-cons_of_mem p m)) (one_less k p ps e)))
