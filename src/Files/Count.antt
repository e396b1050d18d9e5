-- ===== src/Files/Count.antt =====
-- What each operation on the table does to the reference counts.
use xv.Common.{
  ℕ, zero, suc, ◌+◌, ◌-◌, ◌<◌, ◌≡◌, refl, ap, ◌∙◌, arith, false, Bool-cases, inl, inr, Option, none,
  some, List, [], ◌∷◌, ◌==◌, ltb, if◌then◌else◌, set, get_elem?, length, Outcome, ok,
}
use mathlib.Core.Path.{subst}
use mathlib.Core.Option.{some-injective}
use xv.Files.{fd_none, File, free_slot, filealloc, filedup, drop_ref}

-- the `ref` of slot `i`, 0 past the end
abbrev pub ref_of : List File → ℕ → ℕ
ref_of files i = elim (get_elem? files i) [ none ↦ 0 | some f ↦ f.ref ]

ref_of-set :
    (files : List File) (i j : ℕ) (g : File)
    → i < length files
    → ref_of (set files i g) j ≡ (if i == j then g.ref else ref_of files j)
ref_of-set [] i j g h = absurd (omega arith)
ref_of-set (f ∷ fs) zero zero g h = refl
ref_of-set (f ∷ fs) zero (suc j) g h = ground arith
ref_of-set (f ∷ fs) (suc i) zero g h = ground arith
ref_of-set (f ∷ fs) (suc i) (suc j) g h =
    let ih = ref_of-set fs i j g (omega arith) in ground (arith, ih)

-- The counts after slot `i` has gone from `ref` to `n`.
pub record Changed (files : List File) (i n : ℕ) (files' : List File) : Type 0 where
  pub counts : (j : ℕ) → ref_of files' j ≡ (if i == j then n else ref_of files j)

in_table : (files : List File) (i : ℕ) (f : File) → get_elem? files i ≡ some f → i < length files
in_table [] i f e = absurd (cc e)
in_table (g ∷ fs) zero f e = omega arith
in_table (g ∷ fs) (suc i) f e = omega (arith, in_table fs i f e)

pub data Allocated (files : List File) : Option ℕ × List File → Type 0 where
  full : Allocated files (none, files)
  slot :
      (i : ℕ) (files' : List File)
      → ref_of files i ≡ 0
      → Changed files i 1 files'
      → Allocated files (some i, files')

free_slot_lem :
    (n : ℕ) (files : List File) (i : ℕ) (f : File)
    → free_slot n files ≡ some (i, f)
    → (k : ℕ) × (i ≡ n + k) × (get_elem? files k ≡ some f) × (f.ref ≡ 0)
unfolding free_slot
free_slot_lem n [] i f e = absurd (cc e)
free_slot_lem n (g ∷ fs) i f e = elim (Bool-cases (g.ref == 0)) [
  | inl free ↦
      let e' = some-injective _ _ (rw free at e) in
      (
        0,
        omega (arith, ap (λ (r : ℕ × File). r.0) e'),
        ap (λ (r : ℕ × File). some r.1) e',
        subst (λ (r : ℕ × File). r.1.ref ≡ 0) e' (ground arith),
      )
  | inr used ↦
      let (k, at, there, none_held) = free_slot_lem (suc n) fs i f (rw used at e) in
      (suc k, omega arith, there, none_held)
]

ref_of-some :
    (files : List File) (i : ℕ) (f : File) → get_elem? files i ≡ some f → ref_of files i ≡ f.ref
ref_of-some files i f e = ap (λ o. elim o [ none ↦ 0 | some g ↦ g.ref ]) e

-- A slot with references holds a file.
used_slot :
    (files : List File) (i : ℕ)
    → 0 < ref_of files i
    → (f : File) × (get_elem? files i ≡ some f) × (f.ref ≡ ref_of files i)
used_slot [] i h = absurd (omega arith)
used_slot (f ∷ fs) zero h = (f, refl, refl)
used_slot (f ∷ fs) (suc i) h = used_slot fs i h

changed :
    (files : List File) (i n : ℕ) (f g : File)
    → get_elem? files i ≡ some f
    → g.ref ≡ n
    → Changed files i n (set files i g)
changed files i n f g e r = record {
  counts = λ j.
      ref_of-set files i j g (in_table files i f e)
      ∙ ap (λ m. if i == j then m else ref_of files j) r;
}

pub filealloc-Allocated : (files : List File) → Allocated files (filealloc files)
unfolding filealloc
filealloc-Allocated files = go (free_slot 0 files) refl
  where
    go :
        (o : Option (ℕ × File))
        → free_slot 0 files ≡ o
        → Allocated files (elim o [
          | none ↦ (none, files)
          | some (i, f) ↦ (some i, set files i (record f { ref = 1 }))
        ])
    go none e = full
    go (some (i, f)) e =
        let (k, at, there, unused) = free_slot_lem 0 files i f e in
        let there' : get_elem? files i ≡ some f =
          subst (λ m. get_elem? files m ≡ some f) (omega arith) there in
        slot i (set files i (record f { ref = 1 })) (ref_of-some files i f there' ∙ unused)
          (changed files i 1 f (record f { ref = 1 }) there' refl)

pub filedup_lem :
    (files : List File) (i : ℕ)
    → 0 < ref_of files i
    → (files' : List File) × (filedup i files ≡ ok files')
      × Changed files i (ref_of files i + 1) files'
unfolding filedup
filedup_lem files i h =
    let (f, e, r) = used_slot files i h in
    let g : File = record f { ref = f.ref + 1 } in
    let alive : ltb f.ref 1 ≡ false = ground arith in
    (
      set files i g,
      rw (e, filedup, alive) refl,
      changed files i (ref_of files i + 1) f g e (omega arith),
    )

-- The last reference hands over the file; the others do not.
pub data Dropped (files : List File) (i : ℕ) : Outcome (Option File × List File) → Type 0 where
  shared :
      (files' : List File)
      → 1 < ref_of files i
      → Changed files i (ref_of files i - 1) files'
      → Dropped files i (ok (none, files'))
  final :
      (ff : File) (files' : List File)
      → get_elem? files i ≡ some ff
      → ref_of files i ≡ 1
      → Changed files i 0 files'
      → Dropped files i (ok (some ff, files'))

pub drop_ref-Dropped :
    (files : List File) (i : ℕ) → 0 < ref_of files i → Dropped files i (drop_ref i files)
unfolding drop_ref
drop_ref-Dropped files i h =
    let (f, e, r) = used_slot files i h in
    let alive : ltb f.ref 1 ≡ false = ground arith in
    elim (Bool-cases (ltb 0 (f.ref - 1))) [
      | inl more ↦
          let g : File = record f { ref = f.ref - 1 } in
          rw (e, drop_ref, alive, more)
            (shared (set files i g) (ground arith)
              (changed files i (ref_of files i - 1) f g e (omega arith)))
      | inr none_left ↦
          let g : File = record f { ref = 0; type = fd_none } in
          rw (e, drop_ref, alive, none_left)
            (final f (set files i g) e (ground arith) (changed files i 0 f g e refl))
    ]
