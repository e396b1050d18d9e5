-- ===== src/Vm/Tables.antt =====
-- A new table for a directory entry that is not present maps nothing yet.
use mathlib.Core.Path.{subst}
use mathlib.Core.List.{Mem, Nodup, Nodup-cons, mem-cons_self, mem-cons_of_mem}
use xv.Common.{
  ℕ, ◌+◌, ◌*◌, ◌^◌, ◌<◌, ◌≡◌, ◌≢◌, refl, sym, ap, ◌∙◌, arith, inl, inr, true, false, Bool-cases,
  List, ◌∷◌, ℕ_discrete,
}
use xv.Strings.{store32, load32, memset}
use xv.Kalloc.{Kmem, pgsize, v2p}
use xv.Vm.Layout.{pdx, ptx, is_present, pte_addr, p2v, pte_pwu}
use xv.Vm.Memory.{
  IsPage, load32-store32, load32-store32_apart, words_apart, load32-memset_zero,
  load32-memset_apart,
}
use xv.Vm.Space.{dir_entry, table, entry_for, IsSpace}

pub p2v-v2p : (p : ℕ) → IsPage p → p2v (pte_addr (v2p p + pte_pwu)) ≡ p
p2v-v2p p h = ground (arith, h.aligned, h.above, h.below)

module _ (k : Kmem) (pgdir d p : ℕ) (ps : List ℕ) (s : IsSpace k pgdir) (list : k.freelist ≡ p ∷ ps)
    (in_dir : d < 1024) (absent : is_present (dir_entry k.memory pgdir d) ≡ false) where
  abbrev pub with_table : Kmem
  with_table = record k {
    memory = store32 (memset k.memory p 0 pgsize) (pgdir + 4 * d) (v2p p + pte_pwu);
    freelist = ps;
  }

  first : Mem p k.freelist
  first = subst (Mem p) (sym list) mem-cons_self

  page : IsPage p
  page = s.free p first

  fewer : (v : ℕ) → Mem v ps → Mem v k.freelist
  fewer v m = subst (Mem v) (sym list) (mem-cons_of_mem p m)

  not_pgdir : p ≢ pgdir
  not_pgdir e = s.root_used (subst (λ v. Mem v k.freelist) e first)

  not_table :
      (i : ℕ)
      → i < 1024
      → is_present (dir_entry k.memory pgdir i) ≡ true
      → p ≢ table k.memory pgdir i
  not_table i h there e = s.used i h there (subst (λ v. Mem v k.freelist) e first)

  small : v2p p + pte_pwu < 2 ^ 32
  small = ground (arith, page.above, page.below)

  dir_new : dir_entry with_table.memory pgdir d ≡ v2p p + pte_pwu
  dir_new = load32-store32 (memset k.memory p 0 pgsize) (pgdir + 4 * d) (v2p p + pte_pwu) small

  dir_old :
      (j : ℕ) → j < 1024 → d ≢ j → dir_entry with_table.memory pgdir j ≡ dir_entry k.memory pgdir j
  dir_old j h ne =
      load32-store32_apart (memset k.memory p 0 pgsize) (pgdir + 4 * d) (v2p p + pte_pwu)
        (pgdir + 4 * j)
        (words_apart pgdir pgdir d j s.root.aligned s.root.aligned in_dir h (inr ne))
      ∙ load32-memset_apart k.memory p 0 pgdir j page.aligned s.root.aligned h not_pgdir

  -- The words of a page that is not the directory's.
  word_old :
      (t i : ℕ)
      → IsPage t
      → i < 1024
      → p ≢ t
      → t ≢ pgdir
      → load32 with_table.memory (t + 4 * i) ≡ load32 k.memory (t + 4 * i)
  word_old t i h hi ne ne' =
      load32-store32_apart (memset k.memory p 0 pgsize) (pgdir + 4 * d) (v2p p + pte_pwu)
        (t + 4 * i)
        (words_apart pgdir t d i s.root.aligned h.aligned in_dir hi (inl (λ e. ne' (sym e))))
      ∙ load32-memset_apart k.memory p 0 t i page.aligned h.aligned hi ne

  word_new : (i : ℕ) → i < 1024 → load32 with_table.memory (p + 4 * i) ≡ 0
  word_new i h =
      load32-store32_apart (memset k.memory p 0 pgsize) (pgdir + 4 * d) (v2p p + pte_pwu)
        (p + 4 * i)
        (words_apart pgdir p d i s.root.aligned page.aligned in_dir h
          (inl (λ e. not_pgdir (sym e))))
      ∙ load32-memset_zero k.memory p i h

  pub present_new : is_present (dir_entry with_table.memory pgdir d) ≡ true
  present_new = ap is_present dir_new ∙ ground (arith, page.aligned, page.above, page.below)

  pub table_new : table with_table.memory pgdir d ≡ p
  table_new = ap (λ w. p2v (pte_addr w)) dir_new ∙ p2v-v2p p page

  table_old : (j : ℕ) → j < 1024 → d ≢ j → table with_table.memory pgdir j ≡ table k.memory pgdir j
  table_old j h ne = ap (λ w. p2v (pte_addr w)) (dir_old j h ne)

  present_old :
      (j : ℕ)
      → j < 1024
      → d ≢ j
      → is_present (dir_entry with_table.memory pgdir j) ≡ true
      → is_present (dir_entry k.memory pgdir j) ≡ true
  present_old j h ne there = ap is_present (sym (dir_old j h ne)) ∙ there

  pub entry_for-new : (va : ℕ) → entry_for with_table.memory pgdir va ≡ entry_for k.memory pgdir va
  entry_for-new va = elim (ℕ_discrete d (pdx va)) [
    | yes same ↦
        rw⁻¹ same (rw present_new (rw absent (rw table_new (word_new (ptx va) (omega arith)))))
    | no differ ↦
        rw (dir_old (pdx va) (omega arith) differ)
          (elim (Bool-cases (is_present (dir_entry k.memory pgdir (pdx va)))) [
            | inl there ↦ rw there (
                word_old (table k.memory pgdir (pdx va)) (ptx va)
                  (s.tables (pdx va) (omega arith) there) (omega arith)
                  (not_table (pdx va) (omega arith) there)
                  (s.not_root (pdx va) (omega arith) there))
            | inr none_there ↦ rw none_there refl
          ])
  ]

  pub IsSpace-new : IsSpace with_table pgdir
  IsSpace-new = record {
    free = λ v m. s.free v (fewer v m);
    once = once.1;
    root = s.root;
    root_used = λ m. s.root_used (fewer pgdir m);
    tables = λ i h there. elim (ℕ_discrete d i) [
      | yes same ↦ subst IsPage (sym table_new ∙ ap (table with_table.memory pgdir) same) page
      | no differ ↦
          subst IsPage (sym (table_old i h differ)) (s.tables i h (present_old i h differ there))
    ];
    used = λ i h there m. elim (ℕ_discrete d i) [
      | yes same ↦
          once.0
            (subst (λ v. Mem v ps) (ap (table with_table.memory pgdir) (sym same) ∙ table_new) m)
      | no differ ↦
          s.used i h (present_old i h differ there)
            (fewer _ (subst (λ v. Mem v ps) (table_old i h differ) m))
    ];
    not_root = λ i h there e. elim (ℕ_discrete d i) [
      | yes same ↦ not_pgdir (sym table_new ∙ ap (table with_table.memory pgdir) same ∙ e)
      | no differ ↦ s.not_root i h (present_old i h differ there) (sym (table_old i h differ) ∙ e)
    ];
    distinct = λ i j hi hj pi pj e. elim (ℕ_discrete d i) [
      | yes di ↦ elim (ℕ_discrete d j) [
        | yes dj ↦ sym di ∙ dj
        | no dj ↦ absurd (
            not_table j hj (present_old j hj dj pj)
              (sym table_new ∙ ap (table with_table.memory pgdir) di ∙ e ∙ table_old j hj dj))
      ]
      | no di ↦ elim (ℕ_discrete d j) [
        | yes dj ↦ absurd (
            not_table i hi (present_old i hi di pi)
              (sym table_new ∙ ap (table with_table.memory pgdir) dj ∙ sym e ∙ table_old i hi di))
        | no dj ↦
            s.distinct i j hi hj (present_old i hi di pi) (present_old j hj dj pj)
              (sym (table_old i hi di) ∙ e ∙ table_old j hj dj)
      ]
    ];
  }
    where
      once : (¬ Mem p ps) × Nodup ps
      once = Nodup-cons.0 (subst Nodup list s.once)
