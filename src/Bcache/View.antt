-- ===== src/Bcache/View.antt =====
-- What the cache means: the contents of each block of disk 1, and what keeps buffers and disk in
-- agreement with it.
use mathlib.Core.Path.{subst}
use mathlib.Core.Option.{some-injective}
use xv.Common.{
  ℕ, ◌≡◌, ◌≢◌, refl, sym, ap, ◌∙◌, arith, Bool, true, false, Bool-cases, not, ◌||◌, ◌⊎◌, inl, inr,
  ==_iff, none, some, List, [], ◌∷◌, ◌==◌, if◌then◌else◌,
}
use xv.Bcache.Buf.{Buf, deref}
use xv.Bcache.Get.{matches}

-- The buffer, if it is valid, and else the disk.
abbrev pub content : (ℕ → ℕ → ℕ) → (blockno : ℕ) → Buf → ℕ → ℕ
content disk blockno b = if b.valid then b.bytes else disk blockno

-- The block as a process sees it that reads it through the cache.
unfoldable pub view : (ℕ → ℕ → ℕ) → List Buf → (blockno : ℕ) → ℕ → ℕ
unfolding matches
view disk [] blockno = disk blockno
view disk (x ∷ xs) blockno =
    let rest = view disk xs blockno in if matches 1 blockno x then content disk blockno x else rest

-- The buffer is referred to or valid.
abbrev pub live : Buf → Bool
live b = not (b.refcnt == 0) || b.valid

-- A buffer that is live is one of disk 1, a dirty one is valid, and a valid one that is not dirty
-- agrees with the disk.
pub record IsGood (disk : ℕ → ℕ → ℕ) (b : Buf) : Type 0 where
  pub on_disk : live b ≡ true → b.dev ≡ 1
  pub dirty_valid : b.dirty ≡ true → b.valid ≡ true
  pub agrees : b.valid ≡ true → b.dirty ≡ false → b.bytes ≡ disk b.blockno

-- No live buffer of the list caches the block.
pub data IsApart (dev blockno : ℕ) : List Buf → Type 0 where
  no_more : IsApart dev blockno []
  one_more :
      {x : Buf} {xs : List Buf}
      → (live x ≡ true → matches dev blockno x ≡ false)
      → IsApart dev blockno xs
      → IsApart dev blockno (x ∷ xs)

-- Each buffer is good and has an index of its own, and a live one is the first of its block.
pub data IsCache (disk : ℕ → ℕ → ℕ) : List Buf → Type 0 where
  no_buf : IsCache disk []
  a_buf :
      {x : Buf} {xs : List Buf}
      → IsGood disk x
      → IsApart x.dev x.blockno xs
      → deref x.index xs ≡ none
      → IsCache disk xs
      → IsCache disk (x ∷ xs)

pub matches-true : (d b : ℕ) (x : Buf) → matches d b x ≡ true → (x.dev ≡ d) × (x.blockno ≡ b)
unfolding matches
matches-true d b x h = (ground arith, ground arith)

pub matches_self : (x : Buf) → matches x.dev x.blockno x ≡ true
unfolding matches
matches_self x = ground arith

pub live-valid : (x : Buf) → x.valid ≡ true → live x ≡ true
live-valid x h = ground arith

pub false≢true : false ≢ true
false≢true e = cc

-- A block that no live buffer caches is seen on the disk.
pub view_apart :
    (disk : ℕ → ℕ → ℕ) (xs : List Buf) (b : ℕ) → IsApart 1 b xs → view disk xs b ≡ disk b
unfolding view
view_apart disk [] b a = refl
view_apart disk (x ∷ xs) b (one_more h a) = elim (Bool-cases (matches 1 b x)) [
  | inl m ↦ elim (Bool-cases x.valid) [
    | inl v ↦ absurd (false≢true (sym (h (live-valid x v)) ∙ m))
    | inr i ↦ rw m (rw i refl)
  ]
  | inr m ↦ rw m (view_apart disk xs b a)
]

pub deref_cases :
    (i : ℕ) (x : Buf) (xs : List Buf) (y : Buf)
    → deref i (x ∷ xs) ≡ some y
    → (((x.index == i) ≡ true) × (x ≡ y)) ⊎ (((x.index == i) ≡ false) × (deref i xs ≡ some y))
unfolding deref
deref_cases i x xs y e = elim (Bool-cases (x.index == i)) [
  | inl here ↦ inl (here, some-injective _ _ (sym (rw here refl) ∙ e))
  | inr later ↦ inr (later, sym (rw later refl) ∙ e)
]

-- A live buffer found by its index is not one of a block that the list is apart from.
pub apart-deref :
    (d b i : ℕ) (xs : List Buf) (y : Buf)
    → IsApart d b xs
    → deref i xs ≡ some y
    → live y ≡ true
    → matches d b y ≡ false
unfolding deref
apart-deref d b i [] y a e l = cc
apart-deref d b i (x ∷ xs) y (one_more h a) e l = elim (deref_cases i x xs y e) [
  | inl here ↦ subst (λ z. live z ≡ true → matches d b z ≡ false) here.1 h l
  | inr later ↦ apart-deref d b i xs y a later.1 l
]

pub deref_index : (i : ℕ) (xs : List Buf) (y : Buf) → deref i xs ≡ some y → y.index ≡ i
unfolding deref
deref_index i [] y e = cc
deref_index i (x ∷ xs) y e = elim (deref_cases i x xs y e) [
  | inl here ↦ sym (ap (λ z. z.index) here.1) ∙ (==_iff x.index i).0 here.0
  | inr later ↦ deref_index i xs y later.1
]

pub some≢none : {y : Buf} → some y ≢ none
some≢none e = cc

-- An index not in a list is not its head's, nor in its tail.
pub deref-none :
    (i : ℕ) (x : Buf) (xs : List Buf)
    → deref i (x ∷ xs) ≡ none
    → ((x.index == i) ≡ false) × (deref i xs ≡ none)
unfolding deref
deref-none i x xs e = elim (Bool-cases (x.index == i)) [
  | inl here ↦ absurd (some≢none {y = x} (sym (rw here refl) ∙ e))
  | inr later ↦ (later, sym (rw later refl) ∙ e)
]
