-- ===== src/Kalloc/Tests.antt =====
-- The theorems on kalloc.c at concrete pages above a kernel that ends at 0x80100000.
use mathlib.Core.Logic.Or
use mathlib.Core.HLevel.{⊥_prop}
use mathlib.Core.List.{Mem, Nodup, Nodup-cons, Nodup-nil, not-mem-nil, mem-cons}
use xv.Common.{ℕ, ◌≢◌, refl, arith, false, [], ◌∷◌}
use xv.Kalloc.{Kmem, kalloc}
use xv.Kalloc.Pages.{System, alloc, Reach, here, next, all_pages, kalloc_fresh}

abbrev empty : Kmem
empty = record { memory = λ a. 0; freelist = []; use_lock = false }

abbrev two_pages : System
two_pages = record { kmem = record empty { freelist = 0x80102000 ∷ 0x80103000 ∷ [] }; held = [] }

abbrev one_held : System
one_held = record { kmem = record empty { freelist = 0x80103000 ∷ [] }; held = 0x80102000 ∷ [] }

Reach-one : Reach 0x80100000 two_pages one_held
unfolding kalloc
Reach-one = next here (alloc two_pages 0x80102000 one_held.kmem refl (λ e. omega arith))

not_in_one : {a b : ℕ} → a ≢ b → ¬ Mem a (b ∷ [])
not_in_one ne m = Or.elim ⊥_prop (mem-cons.0 m) ne not-mem-nil

distinct : Nodup (all_pages two_pages)
distinct = Nodup-cons.1 (not_in_one (λ e. omega arith), Nodup-cons.1 (not-mem-nil, Nodup-nil))

no_zero : ¬ Mem 0 (all_pages two_pages)
no_zero m = Or.elim ⊥_prop (mem-cons.0 m) (λ e. omega arith) (not_in_one (λ e. omega arith))

kalloc_example :
    (¬ Mem 0x80103000 one_held.held) × Mem {A = ℕ} 0x80103000 (0x80102000 ∷ 0x80103000 ∷ [])
unfolding kalloc
kalloc_example = kalloc_fresh distinct no_zero Reach-one refl (λ e. omega arith)
