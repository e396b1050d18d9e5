-- ===== src/Vm/Space.antt =====
-- Page tables in memory: what they map, and that no page of a table is free or used twice.
use mathlib.Core.Path.{subst}
use mathlib.Core.List.{Mem, Nodup}
use xv.Common.{
  ℕ, ◌+◌, ◌*◌, ◌/◌, ◌^◌, ◌<◌, ◌≡◌, ◌≢◌, refl, sym, ap, ◌∙◌, arith, inl, inr, true, false,
  Bool-cases, if◌then◌else◌, ==_iff, ◌==◌, ℕ_discrete,
}
use xv.Strings.{Memory, store32, load32}
use xv.Kalloc.{Kmem}
use xv.Vm.Layout.{pdx, ptx, is_present, pte_addr, p2v}
use xv.Vm.Memory.{IsPage, load32-store32, load32-store32_apart, words_apart}

-- entry `i` of the directory, and the address of its table
abbrev pub dir_entry : Memory → (pgdir i : ℕ) → ℕ
dir_entry m pgdir i = load32 m (pgdir + 4 * i)

abbrev pub table : Memory → (pgdir i : ℕ) → ℕ
table m pgdir i = p2v (pte_addr (dir_entry m pgdir i))

-- The entry for an address: 0 where it has no table.
abbrev pub entry_for : Memory → (pgdir va : ℕ) → ℕ
entry_for m pgdir va =
    if is_present (dir_entry m pgdir (pdx va))
    then load32 m (table m pgdir (pdx va) + 4 * ptx va)
    else 0

pub record IsSpace (k : Kmem) (pgdir : ℕ) : Type 0 where
  pub free : (v : ℕ) → Mem v k.freelist → IsPage v
  pub once : Nodup k.freelist
  pub root : IsPage pgdir
  pub root_used : ¬ Mem pgdir k.freelist
  pub tables :
      (i : ℕ)
      → i < 1024
      → is_present (dir_entry k.memory pgdir i) ≡ true
      → IsPage (table k.memory pgdir i)
  pub used :
      (i : ℕ)
      → i < 1024
      → is_present (dir_entry k.memory pgdir i) ≡ true
      → ¬ Mem (table k.memory pgdir i) k.freelist
  pub not_root :
      (i : ℕ)
      → i < 1024
      → is_present (dir_entry k.memory pgdir i) ≡ true
      → table k.memory pgdir i ≢ pgdir
  pub distinct :
      (i j : ℕ)
      → i < 1024
      → j < 1024
      → is_present (dir_entry k.memory pgdir i) ≡ true
      → is_present (dir_entry k.memory pgdir j) ≡ true
      → table k.memory pgdir i ≡ table k.memory pgdir j
      → i ≡ j

-- A directory with the same entries, and no more free pages.
pub IsSpace-same :
    (k k' : Kmem) (pgdir : ℕ)
    → IsSpace k pgdir
    → ((i : ℕ) → i < 1024 → dir_entry k'.memory pgdir i ≡ dir_entry k.memory pgdir i)
    → ((v : ℕ) → Mem v k'.freelist → Mem v k.freelist)
    → Nodup k'.freelist
    → IsSpace k' pgdir
IsSpace-same k k' pgdir s same fewer once =
    let there : (i : ℕ)
        → i < 1024
        → is_present (dir_entry k'.memory pgdir i) ≡ true
        → is_present (dir_entry k.memory pgdir i) ≡ true =
      λ i h p. ap is_present (sym (same i h)) ∙ p in
    let tab : (i : ℕ) → i < 1024 → table k'.memory pgdir i ≡ table k.memory pgdir i =
      λ i h. ap (λ w. p2v (pte_addr w)) (same i h) in
    record {
      free = λ v m. s.free v (fewer v m);
      once = once;
      root = s.root;
      root_used = λ m. s.root_used (fewer pgdir m);
      tables = λ i h p. subst IsPage (sym (tab i h)) (s.tables i h (there i h p));
      used =
          λ i h p m. s.used i h (there i h p) (subst (λ v. Mem v k.freelist) (tab i h) (fewer _ m));
      not_root = λ i h p e. s.not_root i h (there i h p) (sym (tab i h) ∙ e);
      distinct = λ i j hi hj p q e.
          s.distinct i j hi hj (there i hi p) (there j hj q) (sym (tab i hi) ∙ e ∙ tab j hj);
    }

-- An entry of a table is written.
module _ (k : Kmem) (pgdir va w : ℕ) (s : IsSpace k pgdir)
    (there : is_present (dir_entry k.memory pgdir (pdx va)) ≡ true) where
  abbrev at : ℕ
  at = table k.memory pgdir (pdx va)

  abbrev pub written : Kmem
  written = record k { memory = store32 k.memory (at + 4 * ptx va) w }

  dir_same : (i : ℕ) → i < 1024 → dir_entry written.memory pgdir i ≡ dir_entry k.memory pgdir i
  dir_same i h =
      let p = s.tables (pdx va) (omega arith) there in
      load32-store32_apart k.memory (at + 4 * ptx va) w (pgdir + 4 * i) (
        words_apart at pgdir (ptx va) i p.aligned s.root.aligned (omega arith) h
          (inl (s.not_root (pdx va) (omega arith) there)))

  pub IsSpace-store32 : IsSpace written pgdir
  IsSpace-store32 = IsSpace-same k written pgdir s dir_same (λ v m. m) s.once

  -- The word of another page is another word.
  other_word :
      (va' : ℕ)
      → va < 2 ^ 32
      → va' < 2 ^ 32
      → va' / 4096 ≢ va / 4096
      → is_present (dir_entry k.memory pgdir (pdx va')) ≡ true
      → load32 written.memory (table k.memory pgdir (pdx va') + 4 * ptx va')
        ≡ load32 k.memory (table k.memory pgdir (pdx va') + 4 * ptx va')
  other_word va' h h' ne there' =
      let p = s.tables (pdx va) (omega arith) there in
      let p' = s.tables (pdx va') (omega arith) there' in
      load32-store32_apart k.memory (at + 4 * ptx va) w
        (table k.memory pgdir (pdx va') + 4 * ptx va')
        (words_apart at (table k.memory pgdir (pdx va')) (ptx va) (ptx va') p.aligned p'.aligned
          (omega arith) (omega arith)
          (elim (ℕ_discrete (pdx va) (pdx va')) [
            | yes same ↦ inr (λ e. ne (omega (arith, same, e, h, h')))
            | no differ ↦ inl (λ e.
                differ (s.distinct (pdx va) (pdx va') (omega arith) (omega arith) there there' e))
          ]))

  -- The entries after the write: a new one for the page of `va`.
  pub entry_for-store32 :
      (va' : ℕ)
      → va < 2 ^ 32
      → va' < 2 ^ 32
      → w < 2 ^ 32
      → entry_for written.memory pgdir va'
        ≡ (if va' / 4096 == va / 4096 then w else entry_for k.memory pgdir va')
  entry_for-store32 va' h h' hw =
      ap (λ d. if is_present d then load32 written.memory (p2v (pte_addr d) + 4 * ptx va') else 0)
        (dir_same (pdx va') (omega arith))
      ∙ elim (ℕ_discrete (va' / 4096) (va / 4096)) [
        | yes same ↦
            let d : pdx va' ≡ pdx va = omega (arith, same) in
            let t : ptx va' ≡ ptx va = omega (arith, same) in
            let page : (va' / 4096 == va / 4096) ≡ true = (==_iff _ _).1 same in
            rw page (rw (d, t) (rw there (load32-store32 k.memory (at + 4 * ptx va) w hw)))
        | no differ ↦
            let page : (va' / 4096 == va / 4096) ≡ false = ground (arith, differ) in
            rw page (elim (Bool-cases (is_present (dir_entry k.memory pgdir (pdx va')))) [
              | inl there' ↦ rw there' (other_word va' h h' differ there')
              | inr none_there ↦ rw none_there refl
            ])
      ]
