-- ===== src/Vm/Pages.antt =====
-- The loop of mappages, and mappages on a range of addresses.
use mathlib.Core.Path.{subst}
use mathlib.Core.List.{Mem}
use xv.Common.{
  ℕ, zero, suc, ◌+◌, ◌-◌, ◌*◌, ◌/◌, ◌%◌, ◌^◌, ◌≤◌, ◌<◌, ◌≡◌, refl, sym, ap, ◌∙◌, arith, Bool, true,
  false, not, ◌&&◌, if◌then◌else◌, ◌==◌, ltb, leb, length, Outcome, ok, ◌>>=◌,
}
use xv.Kalloc.{Kmem, pgsize}
use xv.Vm.Layout.{is_present, mk_pte, pg_round_down}
use xv.Vm.Walk.{map_from, mappages}
use xv.Vm.Space.{entry_for, IsSpace}
use xv.Vm.Map.{
  Placed, no_table, mapped_before, placed, map_page-Placed, with_pages, Mapping, remap,
  out_of_memory, mapped, pages_joined,
}

-- No page is mapped yet.
no_pages :
    (k : Kmem) (pgdir a pa perm va : ℕ)
    → entry_for k.memory pgdir va ≡ with_pages k pgdir a 0 pa perm va
no_pages k pgdir a pa perm va =
    let outside : (leb a va && ltb va (a + 0 * pgsize)) ≡ false = ground arith in rw outside refl

-- After the first page, the rest of the pages.
Mapping-suc :
    (k k1 : Kmem) (pgdir a n pa perm : ℕ) {r : Outcome (Bool × Kmem)}
    → a % pgsize ≡ 0
    → a + suc n * pgsize ≤ 2 ^ 32
    → ((va : ℕ)
        → va < 2 ^ 32
        → entry_for k1.memory pgdir va
          ≡ (if va / 4096 == a / 4096 then mk_pte pa perm else entry_for k.memory pgdir va))
    → ((v : ℕ) → Mem v k1.freelist → Mem v k.freelist)
    → length k.freelist ≤ length k1.freelist + 1
    → Mapping k1 pgdir (a + pgsize) n (pa + pgsize) perm r
    → Mapping k pgdir a (suc n) pa perm r
Mapping-suc k k1 pgdir a n pa perm al room first fewer less (remap va lo hi p) =
    let other : (va / 4096 == a / 4096) ≡ false = ground (arith, lo, al) in
    remap va (omega (arith, lo)) (omega (arith, hi)) (
      ap is_present (
        sym (
          first va (omega (arith, hi, room))
          ∙ ap (λ b. if b then mk_pte pa perm else entry_for k.memory pgdir va) other))
      ∙ p)
Mapping-suc k k1 pgdir a n pa perm al room first fewer less
      (out_of_memory m k' lt e few s entries) =
    out_of_memory (suc m) k' (omega arith) e (omega (arith, less, few)) s
      (λ va h. entries va h ∙ pages_joined k k1 pgdir a m pa perm va al (first va h))
Mapping-suc k k1 pgdir a n pa perm al room first fewer less (mapped k' s entries fewer' less') =
    mapped k' s (λ va h. entries va h ∙ pages_joined k k1 pgdir a n pa perm va al (first va h))
      (λ v m. fewer v (fewer' v m)) (omega (arith, less, less'))

-- A page, and then what is left to do, which is nothing when `done` holds.
after_page :
    (k : Kmem) (pgdir a n pa perm : ℕ) (done : Bool) (rest : Kmem → Outcome (Bool × Kmem))
    {r : Outcome (Bool × Kmem)}
    → a % pgsize ≡ 0
    → a + suc n * pgsize ≤ 2 ^ 32
    → IsSpace k pgdir
    → ((k' : Kmem)
        → IsSpace k' pgdir
        → Mapping k' pgdir
            (a + pgsize)
            n
            (pa + pgsize)
            perm
            (if done then ok (true, k') else rest k'))
    → Placed k pgdir a (mk_pte pa perm) r
    → Mapping k pgdir a (suc n) pa perm (
        r >>= λ (placed', k').
        if not placed' then ok (false, k') else if done then ok (true, k') else rest k')
after_page k pgdir a n pa perm done rest al room s later (no_table e) =
    out_of_memory 0 k (omega arith) e (rw e (omega arith)) s (λ va h. no_pages k pgdir a pa perm va)
after_page k pgdir a n pa perm done rest al room s later (mapped_before p) =
    remap a (omega arith) (omega arith) p
after_page k pgdir a n pa perm done rest al room s later (placed k1 s1 free entries fewer less) =
    Mapping-suc k k1 pgdir a n pa perm al room entries fewer less (later k1 s1)

map_from-Mapping :
    (n pgdir a pa perm : ℕ) (k : Kmem)
    → IsSpace k pgdir
    → a % pgsize ≡ 0
    → perm < pgsize
    → pa % pgsize ≡ 0
    → a + suc n * pgsize ≤ 2 ^ 32
    → pa + suc n * pgsize ≤ 2 ^ 32
    → Mapping k pgdir a (suc n) pa perm (map_from (suc n) pgdir a (a + n * pgsize) pa perm k)
unfolding map_from
map_from-Mapping zero pgdir a pa perm k s al hp pal ha hpa =
    let done : (a == a + 0 * pgsize) ≡ true = ground arith in
    after_page k pgdir a 0 pa perm (a == a + 0 * pgsize)
      (λ k'.
        map_from 0 pgdir ((a + pgsize) % 2 ^ 32) (a + 0 * pgsize) ((pa + pgsize) % 2 ^ 32) perm k')
      al ha s
      (λ k' s'. rw done (
        mapped k' s' (λ va h. no_pages k' pgdir (a + pgsize) (pa + pgsize) perm va) (λ v m. m)
          (omega arith)))
      (map_page-Placed pgdir a pa perm k s (omega (arith, ha)) (ground (arith, hpa, hp, pal)))
map_from-Mapping (suc n) pgdir a pa perm k s al hp pal ha hpa =
    let more : (a == a + suc n * pgsize) ≡ false = ground arith in
    let next : (a + pgsize) % 2 ^ 32 ≡ a + pgsize = omega (arith, ha) in
    let next_pa : (pa + pgsize) % 2 ^ 32 ≡ pa + pgsize = omega (arith, hpa) in
    let last : a + suc n * pgsize ≡ a + pgsize + n * pgsize = omega arith in
    after_page k pgdir a (suc n) pa perm (a == a + suc n * pgsize)
      (λ k'.
        map_from (suc n) pgdir ((a + pgsize) % 2 ^ 32) (a + suc n * pgsize) ((pa + pgsize) % 2 ^ 32)
          perm k')
      al ha s
      (λ k' s'. rw more (
        subst (λ r. Mapping k' pgdir (a + pgsize) (suc n) (pa + pgsize) perm r)
          (sym (
            ap (λ x. map_from (suc n) pgdir x (a + suc n * pgsize) ((pa + pgsize) % 2 ^ 32) perm k')
              next
            ∙ ap (λ x. map_from (suc n) pgdir (a + pgsize) x ((pa + pgsize) % 2 ^ 32) perm k') last
            ∙ ap (λ x. map_from (suc n) pgdir (a + pgsize) (a + pgsize + n * pgsize) x perm k')
                next_pa))
          (map_from-Mapping n pgdir (a + pgsize) (pa + pgsize) perm k' s' (omega (arith, al)) hp
            (omega (arith, pal)) (omega (arith, ha)) (omega (arith, hpa)))))
      (map_page-Placed pgdir a pa perm k s (omega (arith, ha)) (ground (arith, hpa, hp, pal)))

-- the pages from that of `va` to that of the last of `size` bytes
abbrev pub page_count : (va size : ℕ) → ℕ
page_count va size = (pg_round_down (va + size - 1) - pg_round_down va) / pgsize + 1

-- For a range of addresses that is not empty and does not pass 2 ^ 32, physical addresses that do not
-- either and begin with a page, and flags below PGSIZE: mappages maps every page of the range, each to
-- the page as far from `pa`, and leaves the entries of all other addresses; or it fails, with the
-- first pages of the range mapped and no page free; each page mapped takes at most one free page, for
-- a table; it panics only where an address of the range was
-- mapped. The pages of the tables stay apart.
pub mappages-Mapping :
    (pgdir va size pa perm : ℕ) (k : Kmem)
    → IsSpace k pgdir
    → 0 < size
    → va + size ≤ 2 ^ 32
    → perm < pgsize
    → pa % pgsize ≡ 0
    → pa + page_count va size * pgsize ≤ 2 ^ 32
    → Mapping k pgdir
        (pg_round_down va)
        (page_count va size)
        pa
        perm
        (mappages pgdir va size pa perm k)
unfolding mappages
mappages-Mapping pgdir va size pa perm k s some_size room hp pal hpa =
    let a = pg_round_down va in
    let n = (pg_round_down (va + size - 1) - a) / pgsize in
    let end : (va + size + 2 ^ 32 - 1) % 2 ^ 32 ≡ va + size - 1 = omega (arith, some_size, room) in
    let last : pg_round_down (va + size - 1) ≡ a + n * pgsize = omega (arith, some_size) in
    let rounds : (a + n * pgsize + 2 ^ 32 - a) % 2 ^ 32 / pgsize + 1 ≡ suc n =
      omega (arith, some_size, room) in
    let count : suc n ≡ page_count va size = omega arith in
    subst (λ r. Mapping k pgdir a (page_count va size) pa perm r)
      (sym (
        ap
          (λ x.
            map_from ((pg_round_down x + 2 ^ 32 - a) % 2 ^ 32 / pgsize + 1) pgdir a
              (pg_round_down x) pa perm k)
          end
        ∙ ap (λ x. map_from ((x + 2 ^ 32 - a) % 2 ^ 32 / pgsize + 1) pgdir a x pa perm k) last
        ∙ ap (λ x. map_from x pgdir a (a + n * pgsize) pa perm k) rounds))
      (subst
        (λ c. Mapping k pgdir a c pa perm (map_from (suc n) pgdir a (a + n * pgsize) pa perm k))
        count
        (map_from-Mapping n pgdir a pa perm k s (omega arith) hp pal
          (omega (arith, some_size, room)) (omega (arith, hpa))))
