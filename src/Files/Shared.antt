-- ===== src/Files/Shared.antt =====
-- The reference counts are right: the `ref` of a file is the number of references that are held.
use mathlib.Core.Path.{subst}
use xv.Common.{
  ℕ, suc, ◌+◌, ◌-◌, ◌<◌, ◌≡◌, refl, sym, ap, ◌∙◌, arith, ℕ_discrete, true, false, Option, none,
  some, List, [], ◌∷◌, ◌++◌, ◌==◌, if◌then◌else◌, Outcome, ok, ok-injective, get_elem?,
}
use xv.Files.{File, filealloc, filedup, drop_ref}
use xv.Files.Count.{
  ref_of, Changed, Allocated, slot, filealloc-Allocated, filedup_lem, Dropped, shared, final,
  drop_ref-Dropped,
}

-- `held` lists the references to files, wherever they are: one entry for each.
pub record System : Type 0 where
  pub files : List File
  pub held : List ℕ

abbrev pub count : ℕ → List ℕ → ℕ
count i [] = 0
count i (h ∷ hs) = if i == h then suc (count i hs) else count i hs

-- The steps of clients that pass on and give back only references they hold.
pub data Step : System → System → Type 0 where
  alloc :
      (s : System) (i : ℕ) (files : List File)
      → filealloc s.files ≡ (some i, files)
      → Step s (record { files = files; held = i ∷ s.held })
  dup :
      (s : System) (before after : List ℕ) (i : ℕ) (files : List File)
      → s.held ≡ before ++ (i ∷ after)
      → filedup i s.files ≡ ok files
      → Step s (record { files = files; held = i ∷ s.held })
  close :
      (s : System) (before after : List ℕ) (i : ℕ) (r : Option File × List File)
      → s.held ≡ before ++ (i ∷ after)
      → drop_ref i s.files ≡ ok r
      → Step s (record { files = r.1; held = before ++ after })

pub data Reach (s : System) : System → Type 0 where
  here : Reach s s
  next : {t u : System} → Reach s t → Step t u → Reach s u

pub record IsCounted (files : List File) (held : List ℕ) : Type 0 where
  pub counts : (i : ℕ) → ref_of files i ≡ count i held

count_middle :
    (before after : List ℕ) (i j : ℕ)
    → count j (before ++ (i ∷ after))
      ≡ (if j == i then suc (count j (before ++ after)) else count j (before ++ after))
count_middle [] after i j = refl
count_middle (b ∷ before) after i j = let ih = count_middle before after i j in ground (arith, ih)

is_held : (before after : List ℕ) (i : ℕ) → 0 < count i (before ++ (i ∷ after))
is_held before after i = let c = count_middle before after i i in ground (arith, c)

alloc-IsCounted :
    (files files' : List File) (held : List ℕ) (i : ℕ)
    → IsCounted files held
    → Allocated files (some i, files')
    → IsCounted files' (i ∷ held)
alloc-IsCounted files files' held i c (slot _ _ free x) = record {
  counts = λ j. elim (ℕ_discrete i j) [
    | yes same ↦
        rw (← same) (let a = x.counts i in let d = c.counts i in ground (arith, a, d, free))
    | no other ↦ let a = x.counts j in let b = c.counts j in ground (arith, a, b)
  ];
}

dup-IsCounted :
    (files files' : List File) (held : List ℕ) (i : ℕ)
    → IsCounted files held
    → Changed files i (ref_of files i + 1) files'
    → IsCounted files' (i ∷ held)
dup-IsCounted files files' held i c x = record {
  counts = λ j. elim (ℕ_discrete i j) [
    | yes same ↦ rw (← same) (let a = x.counts i in let d = c.counts i in ground (arith, a, d))
    | no other ↦ let a = x.counts j in let b = c.counts j in ground (arith, a, b)
  ];
}

close-IsCounted :
    (files files' : List File) (before after : List ℕ) (i : ℕ)
    → IsCounted files (before ++ (i ∷ after))
    → Changed files i (ref_of files i - 1) files'
    → IsCounted files' (before ++ after)
close-IsCounted files files' before after i c x = record {
  counts = λ j.
      let m = count_middle before after i j in
      let a = x.counts j in
      let b = c.counts j in
      let d = c.counts i in
      elim (ℕ_discrete i j) [
        | yes same ↦
            let n = count_middle before after i i in
            let k = x.counts i in rw (← same) (ground (arith, k, d, n))
        | no other ↦ ground (arith, a, b, m)
      ];
}

Dropped-IsCounted :
    (files : List File) (before after : List ℕ) (i : ℕ) (r : Option File × List File)
    → IsCounted files (before ++ (i ∷ after))
    → Dropped files i (ok r)
    → IsCounted r.1 (before ++ after)
Dropped-IsCounted files before after i _ c (shared files' more x) =
    close-IsCounted files files' before after i c x
Dropped-IsCounted files before after i _ c (final ff files' at last x) =
    close-IsCounted files files' before after i c
      (subst (λ n. Changed files i n files') (omega arith) x)

Step-IsCounted : {s t : System} → Step s t → IsCounted s.files s.held → IsCounted t.files t.held
Step-IsCounted (alloc s i files e) c =
    alloc-IsCounted s.files files s.held i c
      (subst (Allocated s.files) e (filealloc-Allocated s.files))
Step-IsCounted (dup s before after i files at e) c =
    let alive : 0 < ref_of s.files i =
      omega (arith, c.counts i, ap (count i) at, is_held before after i) in
    let (files', e', x) = filedup_lem s.files i alive in
    subst (λ fs. IsCounted fs (i ∷ s.held)) (ok-injective files' files (sym e' ∙ e))
      (dup-IsCounted s.files files' s.held i c x)
Step-IsCounted (close s before after i r at e) c =
    let alive : 0 < ref_of s.files i =
      omega (arith, c.counts i, ap (count i) at, is_held before after i) in
    Dropped-IsCounted s.files before after i r (subst (IsCounted s.files) at c)
      (subst (Dropped s.files i) e (drop_ref-Dropped s.files i alive))

Reach-IsCounted : {s t : System} → IsCounted s.files s.held → Reach s t → IsCounted t.files t.held
Reach-IsCounted c here = c
Reach-IsCounted c (next reach step) = Step-IsCounted step (Reach-IsCounted c reach)

-- A table in which every slot is free.
abbrev pub AllFree : List File → Type 0
AllFree files = (i : ℕ) → ref_of files i ≡ 0

abbrev pub unshared : List File → System
unshared files = record { files = files; held = [] }

counted :
    {s : System} (files : List File)
    → AllFree files
    → Reach (unshared files) s
    → IsCounted s.files s.held
counted files free reach = Reach-IsCounted (record { counts = free }) reach

-- From a table in which every slot is free, and where clients pass on and give back only references
-- they hold: filedup of a reference that is held does not panic, and the part of fileclose under the
-- lock does not panic either and hands over the file for closing if no other reference to it is
-- held, and else nothing.
pub fileclose_last :
    {s : System} (files : List File) (before after : List ℕ) (i : ℕ)
    → AllFree files
    → Reach (unshared files) s
    → s.held ≡ before ++ (i ∷ after)
    → ((files' : List File) × (filedup i s.files ≡ ok files'))
      × ((r : Option File × List File) × (drop_ref i s.files ≡ ok r)
          × (r.0 ≡ (if count i (before ++ after) == 0 then get_elem? s.files i else none)))
fileclose_last {s} files before after i free reach at =
    let c = counted files free reach in
    let held : ref_of s.files i ≡ suc (count i (before ++ after)) =
      let m = count_middle before after i i in
      let n = ap (count i) at in let k = c.counts i in ground (arith, k, n, m) in
    let (files', e, x) = filedup_lem s.files i (omega arith) in
    ((files', e), closes (drop_ref-Dropped s.files i (omega arith)) held)
  where
    closes :
        {o : Outcome (Option File × List File)}
        → Dropped s.files i o
        → ref_of s.files i ≡ suc (count i (before ++ after))
        → (r : Option File × List File) × (o ≡ ok r)
          × (r.0 ≡ (if count i (before ++ after) == 0 then get_elem? s.files i else none))
    closes (shared files' more x) held = (
      (none, files'),
      refl,
      (let others : (count i (before ++ after) == 0) ≡ false = ground arith in rw others refl),
    )
    closes (final ff files' there last x) held = (
      (some ff, files'),
      refl,
      (let alone : (count i (before ++ after) == 0) ≡ true = ground arith in rw alone (sym there)),
    )

-- From a table in which every slot is free, and where clients pass on and give back only references
-- they hold: a file that filealloc returns is one that nobody holds.
pub filealloc_fresh :
    {s : System} (files : List File) (i : ℕ) (files' : List File)
    → AllFree files
    → Reach (unshared files) s
    → filealloc s.files ≡ (some i, files')
    → count i s.held ≡ 0
filealloc_fresh {s} files i files' free reach e =
    go (subst (Allocated s.files) e (filealloc-Allocated s.files))
  where
    go : Allocated s.files (some i, files') → count i s.held ≡ 0
    go (slot _ _ unused x) = sym ((counted files free reach).counts i) ∙ unused
