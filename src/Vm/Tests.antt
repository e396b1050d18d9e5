-- ===== src/Vm/Tests.antt =====
-- An empty directory and two free pages.
use mathlib.Core.Path.{subst}
use mathlib.Core.Logic.Or
use native.Mathlib.Bridge.{le_prop}
use mathlib.Core.List.{Mem, Nodup-cons, Nodup-nil, not-mem-nil, eq-or-mem_of_mem-cons}
use xv.Common.{ℕ, ◌+◌, ◌%◌, ◌<◌, ◌≤◌, ◌≡◌, ◌≢◌, refl, sym, arith, false, ok, List, [], ◌∷◌}
use xv.Kalloc.{Kmem, kernbase, phystop, pgsize, pg_round_up}
use xv.Vm.Layout.{is_present, pg_round_down}
use xv.Vm.Walk.{mappages}
use xv.Vm.User.{allocuvm}
use xv.Vm.Memory.{IsPage}
use xv.Vm.Space.{entry_for, IsSpace}
use xv.Vm.Map.{Mapping}
use xv.Vm.Pages.{page_count, mappages-Mapping}
use xv.Vm.Grow.{IsGrown, allocuvm-IsGrown}

abbrev root : ℕ
root = 0x80400000

abbrev pages : List ℕ
pages = 0x80401000 ∷ 0x80402000 ∷ []

abbrev start : Kmem
start = record { memory = λ a. 0; freelist = pages; use_lock = false }

page_at : (v : ℕ) → v % pgsize ≡ 0 → kernbase ≤ v → v < kernbase + phystop → IsPage v
page_at v al lo hi = record { aligned = al; above = lo; below = hi }

IsPage-prop : (v : ℕ) → IsProp (IsPage v)
IsPage-prop v = hlevel (le_prop)

pages-IsPage : (v : ℕ) → Mem v pages → IsPage v
pages-IsPage v m =
    Or.elim (IsPage-prop v) (eq-or-mem_of_mem-cons m)
      (λ e. subst IsPage (sym e) (page_at 0x80401000 refl (ground arith) (ground arith)))
      (λ m'.
        Or.elim (IsPage-prop v) (eq-or-mem_of_mem-cons m')
          (λ e. subst IsPage (sym e) (page_at 0x80402000 refl (ground arith) (ground arith)))
          (λ m''. absurd (not-mem-nil m'')))

not_in : (v : ℕ) → v ≢ 0x80401000 → v ≢ 0x80402000 → ¬ Mem v pages
not_in v a b m =
    Or.elim (λ x y. absurd x) (eq-or-mem_of_mem-cons m) a
      (λ m'. Or.elim (λ x y. absurd x) (eq-or-mem_of_mem-cons m') b not-mem-nil)

start-IsSpace : IsSpace start root
start-IsSpace = record {
  free = pages-IsPage;
  once = Nodup-cons.1 (
    λ m.
        Or.elim (λ x y. absurd x) (eq-or-mem_of_mem-cons m) (λ e. absurd (omega (arith, e)))
          not-mem-nil,
    Nodup-cons.1 (not-mem-nil, Nodup-nil),
  );
  root = page_at root refl (ground arith) (ground arith);
  root_used = not_in root (λ e. absurd (omega (arith, e))) (λ e. absurd (omega (arith, e)));
  tables = λ i h p. cc;
  used = λ i h p. cc;
  not_root = λ i h p. cc;
  distinct = λ i j hi hj p. cc;
}

unmapped : (va : ℕ) → is_present (entry_for start.memory root va) ≡ false
unmapped va = refl

mappages-Mapping_example :
    Mapping start root
      (pg_round_down 0x5010)
      (page_count 0x5010 0x1000)
      0x9000
      2
      (mappages root 0x5010 0x1000 0x9000 2 start)
mappages-Mapping_example =
    mappages-Mapping root 0x5010 0x1000 0x9000 2 start start-IsSpace (ground arith) (ground arith)
      (ground arith) refl (ground arith)

allocuvm-IsGrown_example :
    (k' : Kmem) × (allocuvm 0x80200000 root 0 100 start ≡ ok (100, k'))
    × IsGrown start root (pg_round_up 0) 100 k'
allocuvm-IsGrown_example =
    allocuvm-IsGrown 0x80200000 start root 0 100 start-IsSpace (ground arith) (ground arith)
      (ground arith) (λ va lo page. unmapped va)
