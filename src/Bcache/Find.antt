-- ===== src/Bcache/Find.antt =====
-- What bget gives for a block of disk 1, and its first loop, which looks for the block.
use mathlib.Core.Path.{subst}
use xv.Common.{
  ℕ, ◌+◌, ◌%◌, ◌^◌, ◌≡◌, refl, sym, ap, ◌∙◌, arith, true, false, Bool-cases, inl, inr, ==_iff,
  Option, none, some, List, [], ◌∷◌, ◌==◌, if◌then◌else◌,
}
use xv.Bcache.Buf.{Buf, deref}
use xv.Bcache.Get.{matches, cached}
use xv.Bcache.View.{
  content, view, live, IsApart, one_more, IsCache, no_buf, a_buf, matches-true, false≢true,
  deref_cases, some≢none, deref-none, apart-deref,
}
use xv.Bcache.Change.{deref-IsGood}

-- No buffer of the list is one of block `b`.
pub data IsOff (b : ℕ) : List Buf → Type 0 where
  off_end : IsOff b []
  off_more : {x : Buf} {xs : List Buf} → matches 1 b x ≡ false → IsOff b xs → IsOff b (x ∷ xs)

pub off-deref :
    (b i : ℕ) (xs : List Buf) (y : Buf) → IsOff b xs → deref i xs ≡ some y → matches 1 b y ≡ false
unfolding deref
off-deref b i [] y off_end e = cc
off-deref b i (x ∷ xs) y (off_more m o) e = elim (deref_cases i x xs y e) [
  | inl here ↦ subst (λ z. matches 1 b z ≡ false) here.1 m
  | inr later ↦ off-deref b i xs y o later.1
]

-- Buffer `i` of the new list is one of block `b`, and it was the buffer of `b` if a live one was.
-- The new list keeps the views and what keeps buffers and disk in agreement.
pub record IsGot (disk : ℕ → ℕ → ℕ) (b : ℕ) (xs : List Buf) (i : ℕ) (xs' : List Buf) (y : Buf)
    : Type 0 where
  pub cache : IsCache disk xs'
  pub views : (c : ℕ) → view disk xs' c ≡ view disk xs c
  pub found : deref i xs' ≡ some y
  pub dev_one : y.dev ≡ 1
  pub block : y.blockno ≡ b
  pub only : (j : ℕ) (z : Buf) → deref j xs ≡ some z → live z ≡ true → z.blockno ≡ b → i ≡ j
  pub apart : (d c : ℕ) → matches d c y ≡ false → IsApart d c xs → IsApart d c xs'
  pub absent : (j : ℕ) → deref j xs ≡ none → deref j xs' ≡ none

-- `x` is not of the block of `y`.
not_key :
    (b : ℕ) (x y : Buf)
    → y.dev ≡ 1
    → y.blockno ≡ b
    → matches 1 b x ≡ false
    → matches x.dev x.blockno y ≡ false
unfolding matches
not_key b x y d e m = ground arith

pub key_matches : (b : ℕ) (x : Buf) → x.dev ≡ 1 → x.blockno ≡ b → matches 1 b x ≡ true
unfolding matches
key_matches b x d e = rw d (rw e ground arith)

IsApart-tail :
    {d c : ℕ} {x : Buf} {xs xs' : List Buf}
    → (IsApart d c xs → IsApart d c xs')
    → IsApart d c (x ∷ xs)
    → IsApart d c (x ∷ xs')
IsApart-tail f (one_more h a) = one_more h (f a)

-- A buffer of another block before the list.
module _ (disk : ℕ → ℕ → ℕ) (b : ℕ) (x : Buf) (xs : List Buf) (m : matches 1 b x ≡ false) where
  other :
      (i : ℕ) (xs' : List Buf) (y : Buf)
      → deref x.index xs ≡ none
      → deref i xs' ≡ some y
      → ((j : ℕ) → deref j xs ≡ none → deref j xs' ≡ none)
      → (x.index == i) ≡ false
  other i xs' y nx found absent = elim (Bool-cases (x.index == i)) [
    | inl same ↦
        let gone : deref i xs' ≡ none =
          subst (λ j. deref j xs' ≡ none) ((==_iff x.index i).0 same) (absent x.index nx) in
        absurd (some≢none (sym found ∙ gone))
    | inr differ ↦ differ
  ]

  pub IsGot-cons :
      (i : ℕ) (xs' : List Buf) (y : Buf)
      → IsCache disk (x ∷ xs)
      → IsGot disk b xs i xs' y
      → IsGot disk b (x ∷ xs) i (x ∷ xs') y
  unfolding view deref
  IsGot-cons i xs' y (a_buf g ax nx c) got = record {
    cache =
        a_buf g (got.apart x.dev x.blockno (not_key b x y got.dev_one got.block m) ax)
          (got.absent x.index nx) got.cache;
    views = λ v. ap (λ r. if matches 1 v x then content disk v x else r) (got.views v);
    found = rw (other i xs' y nx got.found got.absent) got.found;
    dev_one = got.dev_one;
    block = got.block;
    only = λ j z e l same. elim (deref_cases j x xs z e) [
      | inl here ↦ absurd (
          false≢true (
            sym m
            ∙ subst (λ w. live w ≡ true → w.dev ≡ 1 → matches 1 b w ≡ true) (sym here.1)
                (λ l' d. key_matches b z d same) (subst (λ w. live w ≡ true) (sym here.1) l)
                (g.on_disk (subst (λ w. live w ≡ true) (sym here.1) l))))
      | inr later ↦ got.only j z later.1 l same
    ];
    apart = λ d c' my. IsApart-tail (got.apart d c' my);
    absent = λ j n. let off = deref-none j x xs n in rw off.0 (got.absent j off.1);
  }

-- How the first loop ends.
pub data Cached (disk : ℕ → ℕ → ℕ) (b : ℕ) (xs : List Buf) : Option (ℕ × List Buf) → Type 0 where
  missing : IsOff b xs → Cached disk b xs none
  hit :
      (i : ℕ) (xs' : List Buf) (y : Buf)
      → IsGot disk b xs i xs' y
      → Cached disk b xs (some (i, xs'))

-- The buffer at the head of the list with one more reference.
module _ (disk : ℕ → ℕ → ℕ) (b n : ℕ) (x : Buf) (xs : List Buf) (m : matches 1 b x ≡ true) where
  abbrev again : Buf
  again = record x { refcnt = n }

  head-IsGot : IsCache disk (x ∷ xs) → IsGot disk b (x ∷ xs) x.index (again ∷ xs) again
  unfolding view deref matches
  head-IsGot (a_buf g ax nx c) =
      let key = matches-true 1 b x m in
      record {
        cache =
            a_buf (record { on_disk = λ l. key.0; dirty_valid = g.dirty_valid; agrees = g.agrees })
              ax nx c;
        views = λ v. refl;
        found = let self : (x.index == x.index) ≡ true = ground arith in rw self refl;
        dev_one = key.0;
        block = key.1;
        only = λ j z e l same. elim (deref_cases j x xs z e) [
          | inl here ↦ (==_iff x.index j).0 here.0
          | inr later ↦
              let d : z.dev ≡ 1 = (deref-IsGood j xs z c later.1).on_disk l in
              let miss = apart-deref x.dev x.blockno j xs z ax later.1 l in
              absurd (false≢true (sym miss ∙ rw key.0 (rw key.1 (key_matches b z d same))))
        ];
        apart = λ d c' my a. IsApart_head d c' my a;
        absent = λ j e. let away = deref-none j x xs e in rw away.0 away.1;
      }
    where
      IsApart_head :
          (d c : ℕ) → matches d c again ≡ false → IsApart d c (x ∷ xs) → IsApart d c (again ∷ xs)
      IsApart_head d c my (one_more h a) = one_more (λ l. my) a

pub cached-Cached :
    (disk : ℕ → ℕ → ℕ) (b : ℕ) (xs : List Buf) → IsCache disk xs → Cached disk b xs (cached 1 b xs)
unfolding cached
cached-Cached disk b [] no_buf = missing off_end
cached-Cached disk b (x ∷ xs) (a_buf g ax nx c) = elim (Bool-cases (matches 1 b x)) [
  | inl m ↦
      rw m (hit x.index _ _ (head-IsGot disk b ((x.refcnt + 1) % 2 ^ 32) x xs m (a_buf g ax nx c)))
  | inr m ↦ rw m (go m (cached-Cached disk b xs c))
]
  where
    go :
        matches 1 b x ≡ false
        → {o : Option (ℕ × List Buf)} → Cached disk b xs o
        → Cached disk b (x ∷ xs) (elim o [ none ↦ none | some r ↦ some (r.0, x ∷ r.1) ])
    go m (missing o) = missing (off_more m o)
    go m (hit i xs' y got) =
        hit i (x ∷ xs') y (IsGot-cons disk b x xs m i xs' y (a_buf g ax nx c) got)
