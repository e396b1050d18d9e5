-- ===== src/Vm/Map.antt =====
-- mappages maps the pages of its range one for one, and changes no other entry.

use mathlib.Core.List.{Mem}
use xv.Common.{
  ℕ, suc, ◌+◌, ◌-◌, ◌*◌, ◌/◌, ◌%◌, ◌^◌, ◌≤◌, ◌<◌, ◌≡◌, refl, sym, ap, ◌∙◌, arith, inl, inr, Bool,
  true, false, ◌&&◌, Bool-cases, Option, none, some, length, [], if◌then◌else◌, ◌==◌, ltb, leb,
  Outcome, ok, panic,
}
use xv.Strings.{store32, load32}
use xv.Kalloc.{Kmem, pgsize}
use xv.Vm.Layout.{pdx, ptx, is_present, mk_pte, pg_round_down}
use xv.Vm.Walk.{map_page}
use xv.Vm.Space.{table, entry_for, IsSpace, written, IsSpace-store32, entry_for-store32}
use xv.Vm.Find.{Walked, no_memory, at_entry, walkpgdir-Walked}

-- One page is mapped, or was before, or there is no memory for its table.
pub data Placed (k : Kmem) (pgdir a w : ℕ) : Outcome (Bool × Kmem) → Type 0 where
  no_table : k.freelist ≡ [] → Placed k pgdir a w (ok (false, k))
  mapped_before : is_present (entry_for k.memory pgdir a) ≡ true → Placed k pgdir a w panic
  placed :
      (k' : Kmem)
      → IsSpace k' pgdir
      → is_present (entry_for k.memory pgdir a) ≡ false
      → ((va : ℕ)
          → va < 2 ^ 32
          → entry_for k'.memory pgdir va
            ≡ (if va / 4096 == a / 4096 then w else entry_for k.memory pgdir va))
      → ((v : ℕ) → Mem v k'.freelist → Mem v k.freelist)
      → length k.freelist ≤ length k'.freelist + 1
      → Placed k pgdir a w (ok (true, k'))

pub map_page-Placed :
    (pgdir a pa perm : ℕ) (k : Kmem)
    → IsSpace k pgdir
    → a < 2 ^ 32
    → mk_pte pa perm < 2 ^ 32
    → Placed k pgdir a (mk_pte pa perm) (map_page pgdir a pa perm k)
unfolding map_page
map_page-Placed pgdir a pa perm k s ha hw = go (walkpgdir-Walked k pgdir a s)
  where
    put : Option ℕ × Kmem → Outcome (Bool × Kmem)
    put (o, k') = elim o [
      | none ↦ ok (false, k')
      | some pte ↦
          if is_present (load32 k'.memory pte)
          then panic
          else ok (true, record k' { memory = store32 k'.memory pte (mk_pte pa perm) })
    ]

    go : {r : Option ℕ × Kmem} → Walked k pgdir a r → Placed k pgdir a (mk_pte pa perm) (put r)
    go (no_memory e) = no_table e
    go (at_entry k' s' there same fewer less) =
        let word : load32 k'.memory (table k'.memory pgdir (pdx a) + 4 * ptx a)
            ≡ entry_for k.memory pgdir a =
          sym (
            ap (λ b. if b then load32 k'.memory (table k'.memory pgdir (pdx a) + 4 * ptx a) else 0)
              there)
          ∙ same a in
        elim (Bool-cases (is_present (entry_for k.memory pgdir a))) [
          | inl p ↦ rw (ap is_present word ∙ p) (mapped_before p)
          | inr p ↦ rw (ap is_present word ∙ p) (
              placed (written k' pgdir a (mk_pte pa perm) s' there)
                (IsSpace-store32 k' pgdir a (mk_pte pa perm) s' there) p
                (λ va h.
                  entry_for-store32 k' pgdir a (mk_pte pa perm) s' there va ha h hw
                  ∙ ap (λ e. if va / 4096 == a / 4096 then mk_pte pa perm else e) (same va))
                fewer less)
        ]

-- The entry for `va` when `n` pages from `a` on are mapped to those from `pa` on, and else as in `k`.
abbrev pub with_pages : Kmem → (pgdir a n pa perm va : ℕ) → ℕ
with_pages k pgdir a n pa perm va =
    if leb a va && ltb va (a + n * pgsize)
    then mk_pte (pa + (pg_round_down va - a)) perm
    else entry_for k.memory pgdir va

-- How the mapping of `n` pages from `a` on ends. Each page takes at most one free page, for a table.
pub data Mapping (k : Kmem) (pgdir a n pa perm : ℕ) : Outcome (Bool × Kmem) → Type 0 where
  remap :
      (va : ℕ)
      → a ≤ va
      → va < a + n * pgsize
      → is_present (entry_for k.memory pgdir va) ≡ true
      → Mapping k pgdir a n pa perm panic
  out_of_memory :
      (m : ℕ) (k' : Kmem)
      → m < n
      → k'.freelist ≡ []
      → length k.freelist ≤ m
      → IsSpace k' pgdir
      → ((va : ℕ) → va < 2 ^ 32 → entry_for k'.memory pgdir va ≡ with_pages k pgdir a m pa perm va)
      → Mapping k pgdir a n pa perm (ok (false, k'))
  mapped :
      (k' : Kmem)
      → IsSpace k' pgdir
      → ((va : ℕ) → va < 2 ^ 32 → entry_for k'.memory pgdir va ≡ with_pages k pgdir a n pa perm va)
      → ((v : ℕ) → Mem v k'.freelist → Mem v k.freelist)
      → length k.freelist ≤ length k'.freelist + n
      → Mapping k pgdir a n pa perm (ok (true, k'))

-- The first page and then the rest.
pub pages_joined :
    (k k1 : Kmem) (pgdir a m pa perm va : ℕ)
    → a % pgsize ≡ 0
    → entry_for k1.memory pgdir va
      ≡ (if va / 4096 == a / 4096 then mk_pte pa perm else entry_for k.memory pgdir va)
    → with_pages k1 pgdir (a + pgsize) m (pa + pgsize) perm va
      ≡ with_pages k pgdir a (suc m) pa perm va
pages_joined k k1 pgdir a m pa perm va aligned first =
    elim (Bool-cases (leb (a + pgsize) va && ltb va (a + pgsize + m * pgsize))) [
      | inl later ↦
          let within : (leb a va && ltb va (a + suc m * pgsize)) ≡ true = ground (arith, later) in
          let place : pa + pgsize + (pg_round_down va - (a + pgsize))
              ≡ pa + (pg_round_down va - a) =
            ground (arith, later, aligned) in
          rw later (rw within (ap (λ p. mk_pte p perm) place))
      | inr not_later ↦ rw not_later (
          first ∙ elim (Bool-cases (va / 4096 == a / 4096)) [
            | inl same ↦
                let within : (leb a va && ltb va (a + suc m * pgsize)) ≡ true =
                  ground (arith, same, aligned) in
                let place : pa ≡ pa + (pg_round_down va - a) = ground (arith, same, aligned) in
                rw same (rw within (ap (λ p. mk_pte p perm) place))
            | inr differ ↦
                let outside : (leb a va && ltb va (a + suc m * pgsize)) ≡ false =
                  ground (arith, differ, not_later, aligned) in
                rw differ (rw outside refl)
          ])
    ]
