-- ===== src/Vm/Grow.antt =====
-- allocuvm maps new pages of the free list from the old size to the new, and nothing else.
use mathlib.Core.Path.{subst}
use mathlib.Core.List.{Mem}
use xv.Common.{
  ℕ, zero, suc, ◌+◌, ◌-◌, ◌*◌, ◌/◌, ◌%◌, ◌^◌, ◌≤◌, ◌<◌, ◌≡◌, refl, sym, ap, ◌∙◌, arith, ◌⊎◌, inl,
  inr, Bool, true, false, ◌&&◌, Bool-cases, length, List, [], ◌∷◌, if◌then◌else◌, ◌==◌, ltb, ltb→lt,
  leb, dec_lt, Outcome, ok, panic, ◌>>=◌,
}
use xv.Strings.{memset}
use xv.Kalloc.{Kmem, pgsize, kernbase, v2p, pg_round_up, kalloc, kfree}
use xv.Vm.Layout.{is_present, mk_pte, pg_round_down, pte_wu}
use xv.Vm.Walk.{mappages, deallocuvm}
use xv.Vm.User.{alloc_from, allocuvm}
use xv.Vm.Space.{entry_for, IsSpace}
use xv.Vm.Find.{kalloc_none, kalloc_first, nonzero_page, one_less}
use xv.Vm.Fresh.{
  zeroed, first_free, fewer_free, taken, first-IsPage, IsSpace-zeroed, entry_for-zeroed,
}
use xv.Vm.Map.{with_pages, Mapping, remap, out_of_memory, mapped}
use xv.Vm.Pages.{page_count, mappages-Mapping}

-- the pages from page `a` up to `newsz`
abbrev pub pages_left : (a newsz : ℕ) → ℕ
pages_left a newsz = (newsz - a + pgsize - 1) / pgsize

-- What the pages from `a` up to `newsz` are in `k'`, and that all else is as in `k`.
pub record IsGrown (k : Kmem) (pgdir a newsz : ℕ) (k' : Kmem) : Type 0 where
  pub space : IsSpace k' pgdir
  pub fewer : (v : ℕ) → Mem v k'.freelist → Mem v k.freelist
  pub inside :
      (va : ℕ)
      → va < 2 ^ 32
      → a ≤ va
      → pg_round_down va < newsz
      → (p : ℕ) × Mem p k.freelist
        × (¬ Mem p k'.freelist)
        × (entry_for k'.memory pgdir va ≡ mk_pte (v2p p) pte_wu)
  pub outside :
      (va : ℕ)
      → va < 2 ^ 32
      → (va < a) ⊎ (newsz ≤ pg_round_down va)
      → entry_for k'.memory pgdir va ≡ entry_for k.memory pgdir va

-- How allocuvm from page `a` on ends: in a return of the new size; where fewer pages are free than two
-- for each page to map, in a call of deallocuvm and a return of 0; or in a panic, where an address of
-- the range was mapped.
pub data Growth (end : ℕ) (k : Kmem) (pgdir a oldsz newsz : ℕ) : Outcome (ℕ × Kmem) → Type 0 where
  grown :
      (k' : Kmem) → IsGrown k pgdir a newsz k' → Growth end k pgdir a oldsz newsz (ok (newsz, k'))
  no_page :
      (k1 : Kmem)
      → length k.freelist < 2 * pages_left a newsz
      → Growth end k pgdir a oldsz newsz
          (deallocuvm end pgdir newsz oldsz k1 >>= λ (_, k'). ok (0, k'))
  no_table :
      (k1 : Kmem) (mem : ℕ)
      → length k.freelist < 2 * pages_left a newsz
      → Growth end k pgdir a oldsz newsz
          (deallocuvm end pgdir newsz oldsz k1 >>= λ (_, k2). kfree end mem k2 >>= λ k'. ok (0, k'))
  in_use :
      (va : ℕ)
      → a ≤ va
      → pg_round_down va < newsz
      → is_present (entry_for k.memory pgdir va) ≡ true
      → Growth end k pgdir a oldsz newsz panic

-- Page `a` of `k` is mapped to the free page `p`.
record IsFirst (k : Kmem) (pgdir a p : ℕ) (k2 : Kmem) : Type 0 where
  was_free : Mem p k.freelist
  gone : ¬ Mem p k2.freelist
  subset : (v : ℕ) → Mem v k2.freelist → Mem v k.freelist
  takes : length k.freelist ≤ length k2.freelist + 2
  entries :
      (va : ℕ)
      → va < 2 ^ 32
      → entry_for k2.memory pgdir va ≡ (
          if leb a va && ltb va (a + pgsize)
          then mk_pte (v2p p) pte_wu
          else entry_for k.memory pgdir va)

module _ (end : ℕ) (k : Kmem) (pgdir a p oldsz newsz : ℕ) (k2 : Kmem) (f : IsFirst k pgdir a p k2)
    (al : a % pgsize ≡ 0) where
  first_entry :
      (va : ℕ)
      → va < 2 ^ 32
      → a ≤ va
      → va < a + pgsize
      → entry_for k2.memory pgdir va ≡ mk_pte (v2p p) pte_wu
  first_entry va h lo hi =
      let here : (leb a va && ltb va (a + pgsize)) ≡ true = ground (arith, lo, hi) in
      f.entries va h ∙ rw here refl

  other_entry :
      (va : ℕ)
      → va < 2 ^ 32
      → (va < a) ⊎ (a + pgsize ≤ va)
      → entry_for k2.memory pgdir va ≡ entry_for k.memory pgdir va
  other_entry va h away =
      let not_here : (leb a va && ltb va (a + pgsize)) ≡ false = ground (arith, away) in
      f.entries va h ∙ rw not_here refl

  Growth-suc :
      {r : Outcome (ℕ × Kmem)}
      → a < newsz
      → newsz < 2 ^ 31
      → Growth end k2 pgdir (a + pgsize) oldsz newsz r
      → Growth end k pgdir a oldsz newsz r
  Growth-suc more small (grown k' g) = grown k' (record {
    space = g.space;
    fewer = λ v m. f.subset v (g.fewer v m);
    inside = λ va h lo page. elim (dec_lt va (a + pgsize)) [
      | yes here ↦ (
        p,
        f.was_free,
        (λ m. f.gone (g.fewer p m)),
        g.outside va h (inl here) ∙ first_entry va h lo here,
      )
      | no later ↦
          let q = g.inside va h (omega (arith, later)) page in (q.0, f.subset q.0 q.1, q.2, q.3)
    ];
    outside = λ va h away. elim away [
      | inl low ↦ g.outside va h (inl (omega (arith, low))) ∙ other_entry va h (inl low)
      | inr high ↦
          g.outside va h (inr high) ∙ other_entry va h (inr (omega (arith, high, more, al)))
    ];
  })
  Growth-suc more small (no_page k1 lt) = no_page k1 (omega (arith, f.takes, more, lt))
  Growth-suc more small (no_table k1 mem lt) = no_table k1 mem (omega (arith, f.takes, more, lt))
  Growth-suc more small (in_use va lo page there) =
      in_use va (omega (arith, lo)) page
        (ap is_present (sym (other_entry va (omega (arith, page, small)) (inr lo))) ∙ there)

-- A round of the loop, where `rest` is what is left.
module _ (end : ℕ) (k : Kmem) (pgdir a oldsz newsz : ℕ) (s : IsSpace k pgdir) (al : a % pgsize ≡ 0)
    (more : a < newsz) (small : newsz < 2 ^ 31) (rest : Kmem → Outcome (ℕ × Kmem))
    (later : (k2 : Kmem)
      → IsSpace k2 pgdir
      → Growth end k2 pgdir (a + pgsize) oldsz newsz (rest k2)) where
  abbrev after_map : ℕ → Bool × Kmem → Outcome (ℕ × Kmem)
  after_map mem (mapped', k2) =
      if mapped'
      then rest k2
      else deallocuvm end pgdir newsz oldsz k2 >>= λ (_, k3). kfree end mem k3 >>= λ k4. ok (0, k4)

  mapped-Growth :
      (p : ℕ) (ps : List ℕ) (list : k.freelist ≡ p ∷ ps) {r : Outcome (Bool × Kmem)}
      → Mapping (zeroed k pgdir p ps s list) pgdir a 1 (v2p p) pte_wu r
      → Growth end k pgdir a oldsz newsz (r >>= after_map p)
  mapped-Growth p ps list (remap va lo hi there) =
      in_use va lo (omega (arith, hi, more, al))
        (ap is_present (sym (entry_for-zeroed k pgdir p ps s list va)) ∙ there)
  mapped-Growth p ps list (out_of_memory m k' lt e few s' entries) =
      no_table k' p (omega (arith, lt, few, one_less k p ps list, more))
  mapped-Growth p ps list (mapped k2 s2 entries fewer less) =
      Growth-suc end k pgdir a p oldsz newsz k2
        (record {
          was_free = first_free k pgdir p ps s list;
          gone = λ m. taken k pgdir p ps s list (fewer p m);
          subset = λ v m. fewer_free k pgdir p ps s list v (fewer v m);
          takes = omega (arith, less, one_less k p ps list);
          entries = λ va h. entries va h ∙ one_page va;
        })
        al more small (later k2 s2)
    where
      one_page :
          (va : ℕ)
          → with_pages (zeroed k pgdir p ps s list) pgdir a 1 (v2p p) pte_wu va ≡ (
              if leb a va && ltb va (a + pgsize)
              then mk_pte (v2p p) pte_wu
              else entry_for k.memory pgdir va)
      one_page va = elim (Bool-cases (leb a va && ltb va (a + pgsize))) [
        | inl here ↦
            let place : v2p p + (pg_round_down va - a) ≡ v2p p = ground (arith, here, al) in
            rw here (ap (λ x. mk_pte x pte_wu) place)
        | inr away ↦ rw away (entry_for-zeroed k pgdir p ps s list va)
      ]

  abbrev round : ℕ × Kmem → Outcome (ℕ × Kmem)
  round (mem, k') =
      if mem == 0
      then (deallocuvm end pgdir newsz oldsz k' >>= λ (_, k''). ok (0, k''))
      else mappages pgdir a pgsize (v2p mem) pte_wu
          (record k' { memory = memset k'.memory mem 0 pgsize })
        >>= after_map mem

  round-Growth : Growth end k pgdir a oldsz newsz (round (kalloc k))
  round-Growth = go k.freelist refl
    where
      go : (free : List ℕ) → k.freelist ≡ free → Growth end k pgdir a oldsz newsz (round (kalloc k))
      go [] e =
          subst (λ r. Growth end k pgdir a oldsz newsz (round r)) (sym (kalloc_none k e))
            (no_page k (rw e (omega (arith, more))))
      go (p ∷ ps) e =
          let page = first-IsPage k pgdir p ps s e in
          let one : page_count a pgsize ≡ 1 = omega (arith, al) in
          let start : pg_round_down a ≡ a = omega (arith, al) in
          let phys : v2p p ≡ p - kernbase = ground (arith, page.above, page.below) in
          let m =
            mappages-Mapping pgdir a pgsize (v2p p) pte_wu (zeroed k pgdir p ps s e)
              (IsSpace-zeroed k pgdir p ps s e) (omega arith) (omega (arith, more, small))
              (omega arith) (omega (arith, phys, page.aligned, page.above))
              (omega (arith, phys, one, page.below)) in
          subst (λ r. Growth end k pgdir a oldsz newsz (round r)) (sym (kalloc_first k p ps e))
            (rw (nonzero_page p page) (
              mapped-Growth p ps e (
                subst
                  (λ c.
                    Mapping (zeroed k pgdir p ps s e) pgdir a c (v2p p) pte_wu
                      (mappages pgdir a pgsize (v2p p) pte_wu (zeroed k pgdir p ps s e)))
                  one
                  (subst
                    (λ x.
                      Mapping (zeroed k pgdir p ps s e) pgdir x (page_count a pgsize) (v2p p) pte_wu
                        (mappages pgdir a pgsize (v2p p) pte_wu (zeroed k pgdir p ps s e)))
                    start m))))

-- Nothing is left to map.
Growth_done :
    (end : ℕ) (k : Kmem) (pgdir a oldsz newsz : ℕ)
    → IsSpace k pgdir
    → a % pgsize ≡ 0
    → newsz ≤ a
    → Growth end k pgdir a oldsz newsz (ok (newsz, k))
Growth_done end k pgdir a oldsz newsz s al done = grown k (record {
  space = s;
  fewer = λ v m. m;
  inside = λ va h lo page. absurd (omega (arith, lo, page, al, done));
  outside = λ va h away. refl;
})

alloc_from-Growth :
    (end rounds : ℕ) (k : Kmem) (pgdir a oldsz newsz : ℕ)
    → IsSpace k pgdir
    → a % pgsize ≡ 0
    → newsz < 2 ^ 31
    → newsz ≤ a + rounds * pgsize
    → Growth end k pgdir a oldsz newsz (alloc_from end rounds pgdir a oldsz newsz k)
unfolding alloc_from
alloc_from-Growth end zero k pgdir a oldsz newsz s al small enough =
    Growth_done end k pgdir a oldsz newsz s al (omega (arith, enough))
alloc_from-Growth end (suc rounds) k pgdir a oldsz newsz s al small enough =
    elim (Bool-cases (ltb a newsz)) [
      | inl more ↦ rw more (
          round-Growth end k pgdir a oldsz newsz s al (ltb→lt a newsz more) small
            (alloc_from end rounds pgdir (a + pgsize) oldsz newsz)
            (λ k2 s2.
              alloc_from-Growth end rounds k2 pgdir (a + pgsize) oldsz newsz s2 (omega (arith, al))
                small (omega (arith, enough))))
      | inr done ↦ rw done (Growth_done end k pgdir a oldsz newsz s al (ground (arith, done)))
    ]

pub allocuvm-Growth :
    (end : ℕ) (k : Kmem) (pgdir oldsz newsz : ℕ)
    → IsSpace k pgdir
    → oldsz ≤ newsz
    → newsz < kernbase
    → Growth end k pgdir (pg_round_up oldsz) oldsz newsz (allocuvm end pgdir oldsz newsz k)
unfolding allocuvm
allocuvm-Growth end k pgdir oldsz newsz s grows small =
    let low : leb kernbase newsz ≡ false = ground (arith, small) in
    let up : ltb newsz oldsz ≡ false = ground (arith, grows) in
    let all : newsz ≤ pg_round_up oldsz + (newsz / pgsize + 1) * pgsize = omega arith in
    rw low (
      rw up (
        alloc_from-Growth end (newsz / pgsize + 1) k pgdir (pg_round_up oldsz) oldsz newsz s
          (omega arith) (omega (arith, small)) all))

-- On page tables whose pages are not free and not used twice, and for a new size below KERNBASE and not
-- below the old: where no address from the old size up to the new is mapped, and two pages are free
-- for each page to map, one for the memory and one for a table, allocuvm returns the new size, with
-- every page from the old size up to the new mapped, writable by the user, to a page that was free and
-- is no longer, and with every other address mapped as before.
pub allocuvm-IsGrown :
    (end : ℕ) (k : Kmem) (pgdir oldsz newsz : ℕ)
    → IsSpace k pgdir
    → oldsz ≤ newsz
    → newsz < kernbase
    → 2 * pages_left (pg_round_up oldsz) newsz ≤ length k.freelist
    → ((va : ℕ)
        → pg_round_up oldsz ≤ va
        → pg_round_down va < newsz
        → is_present (entry_for k.memory pgdir va) ≡ false)
    → (k' : Kmem) × (allocuvm end pgdir oldsz newsz k ≡ ok (newsz, k'))
      × IsGrown k pgdir (pg_round_up oldsz) newsz k'
allocuvm-IsGrown end k pgdir oldsz newsz s grows small enough clear =
    go (allocuvm-Growth end k pgdir oldsz newsz s grows small)
  where
    go :
        {r : Outcome (ℕ × Kmem)}
        → Growth end k pgdir (pg_round_up oldsz) oldsz newsz r
        → (k' : Kmem) × (r ≡ ok (newsz, k')) × IsGrown k pgdir (pg_round_up oldsz) newsz k'
    go (grown k' g) = (k', refl, g)
    go (no_page k1 lt) = absurd (omega (arith, lt, enough))
    go (no_table k1 mem lt) = absurd (omega (arith, lt, enough))
    go (in_use va lo page there) = cc (clear va lo page, there)
