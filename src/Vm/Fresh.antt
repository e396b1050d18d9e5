-- ===== src/Vm/Fresh.antt =====
-- A page taken from the free list and zeroed leaves what is mapped.
use mathlib.Core.Path.{subst}
use mathlib.Core.List.{Mem, Nodup, Nodup-cons, mem-cons_self, mem-cons_of_mem}
use xv.Common.{
  ℕ, ◌+◌, ◌*◌, ◌<◌, ◌≡◌, refl, sym, ap, ◌∙◌, arith, inl, inr, Bool-cases, if◌then◌else◌, List, ◌∷◌,
}
use xv.Strings.{load32, memset}
use xv.Kalloc.{Kmem, pgsize}
use xv.Vm.Layout.{pdx, ptx, is_present, pte_addr, p2v}
use xv.Vm.Memory.{IsPage, load32-memset_apart}
use xv.Vm.Space.{dir_entry, table, entry_for, IsSpace, IsSpace-same}

module _ (k : Kmem) (pgdir p : ℕ) (ps : List ℕ) (s : IsSpace k pgdir)
    (list : k.freelist ≡ p ∷ ps) where
  abbrev pub zeroed : Kmem
  zeroed = record k { memory = memset k.memory p 0 pgsize; freelist = ps }

  pub first_free : Mem p k.freelist
  first_free = subst (Mem p) (sym list) mem-cons_self

  pub fewer_free : (v : ℕ) → Mem v ps → Mem v k.freelist
  fewer_free v m = subst (Mem v) (sym list) (mem-cons_of_mem p m)

  pub taken : ¬ Mem p ps
  taken = (Nodup-cons.0 (subst Nodup list s.once)).0

  pub first-IsPage : IsPage p
  first-IsPage = s.free p first_free

  dir_kept : (i : ℕ) → i < 1024 → dir_entry zeroed.memory pgdir i ≡ dir_entry k.memory pgdir i
  dir_kept i h =
      load32-memset_apart k.memory p 0 pgdir i first-IsPage.aligned s.root.aligned h
        (λ e. s.root_used (subst (λ v. Mem v k.freelist) e first_free))

  pub IsSpace-zeroed : IsSpace zeroed pgdir
  IsSpace-zeroed =
      IsSpace-same k zeroed pgdir s dir_kept fewer_free (Nodup-cons.0 (subst Nodup list s.once)).1

  pub entry_for-zeroed : (va : ℕ) → entry_for zeroed.memory pgdir va ≡ entry_for k.memory pgdir va
  entry_for-zeroed va =
      ap (λ d. if is_present d then load32 zeroed.memory (p2v (pte_addr d) + 4 * ptx va) else 0)
        (dir_kept (pdx va) (omega arith))
      ∙ elim (Bool-cases (is_present (dir_entry k.memory pgdir (pdx va)))) [
        | inl there ↦
            let t = s.tables (pdx va) (omega arith) there in
            rw there (
              load32-memset_apart k.memory p 0 (table k.memory pgdir (pdx va)) (ptx va)
                first-IsPage.aligned t.aligned (omega arith)
                (λ e.
                  s.used (pdx va) (omega arith) there (subst (λ v. Mem v k.freelist) e first_free)))
        | inr none_there ↦ rw none_there refl
      ]
