-- ===== src/Bcache/Recycle.antt =====
-- The second loop of bget, which makes an unused buffer a buffer of the block, and bget itself.
use mathlib.Core.Path.{subst}
use xv.Common.{
  ℕ, ◌≡◌, refl, sym, ap, ◌∙◌, arith, Bool, true, false, Bool-cases, not, ◌&&◌, inl, inr, ==_iff,
  Option, none, some, List, [], ◌∷◌, ◌==◌, if◌then◌else◌, Outcome, ok, panic,
}
use xv.Bcache.Buf.{Buf, deref}
use xv.Bcache.Get.{matches, recycle, bget}
use xv.Bcache.View.{
  content, view, IsGood, IsApart, no_more, one_more, IsCache, no_buf, a_buf, matches-true,
  view_apart, false≢true, deref_cases, deref-none,
}
use xv.Bcache.Change.{deref-IsGood}
use xv.Bcache.Find.{
  IsOff, off_end, off_more, off-deref, IsGot, IsGot-cons, key_matches, Cached, missing, hit,
  cached-Cached,
}

IsOff-IsApart : (b : ℕ) (xs : List Buf) → IsOff b xs → IsApart 1 b xs
IsOff-IsApart b [] off_end = no_more
IsOff-IsApart b (x ∷ xs) (off_more m o) = one_more (λ l. m) (IsOff-IsApart b xs o)

abbrev unused : Buf → Bool
unused x = (x.refcnt == 0) && not x.dirty

abbrev renew : ℕ → Buf → Buf
renew b x = record x { dev = 1; blockno = b; valid = false; dirty = false; refcnt = 1 }

-- The unused buffer at the head of the list, made a buffer of block `b`.
module _ (disk : ℕ → ℕ → ℕ) (b : ℕ) (x : Buf) (xs : List Buf) (free : unused x ≡ true)
    (off : IsOff b (x ∷ xs)) where
  -- An unused buffer shows what is on the disk.
  shown : IsGood disk x → (c : ℕ) → matches 1 c x ≡ true → content disk c x ≡ disk c
  shown g c m = elim (Bool-cases x.valid) [
    | inl v ↦ rw v (g.agrees v (ground arith) ∙ ap disk (matches-true 1 c x m).1)
    | inr i ↦ rw i refl
  ]

  IsOff-tail : IsOff b (x ∷ xs) → IsOff b xs
  IsOff-tail (off_more m o) = o

  same_view : IsCache disk (x ∷ xs) → (c : ℕ) → view disk (renew b x ∷ xs) c ≡ view disk (x ∷ xs) c
  unfolding view matches
  same_view (a_buf g ax nx cs) c = elim (Bool-cases (matches 1 c x)) [
    | inl m ↦
        let key = matches-true 1 c x m in
        let rest : view disk xs c ≡ disk c =
          view_apart disk xs c
            (subst (λ d. IsApart d c xs) key.0 (subst (λ k. IsApart x.dev k xs) key.1 ax)) in
        rw m (
          rw (shown g c m) (
            rw rest (elim (Bool-cases (matches 1 c (renew b x))) [
              | inl e ↦ rw e refl
              | inr e ↦ rw e refl
            ])))
    | inr m ↦ rw m (elim (Bool-cases (b == c)) [
      | inl e ↦
          let same = (==_iff b c).0 e in
          rw e (
            sym (
              subst (λ k. view disk xs k ≡ disk k) same
                (view_apart disk xs b (IsOff-IsApart b xs (IsOff-tail off)))))
      | inr e ↦ rw e refl
    ])
  ]

  renewed-IsGot : IsCache disk (x ∷ xs) → IsGot disk b (x ∷ xs) x.index (renew b x ∷ xs) (renew b x)
  unfolding view deref matches
  renewed-IsGot (a_buf g ax nx c) = record {
    cache =
        a_buf (record { on_disk = λ l. refl; dirty_valid = λ e. cc; agrees = λ e. cc })
          (IsOff-IsApart b xs (IsOff-tail off)) nx c;
    views = same_view (a_buf g ax nx c);
    found = let self : (x.index == x.index) ≡ true = ground arith in rw self refl;
    dev_one = refl;
    block = refl;
    only = λ j z e l same.
        let d = (deref-IsGood j (x ∷ xs) z (a_buf g ax nx c) e).on_disk l in
        absurd (false≢true (sym (off-deref b j (x ∷ xs) z off e) ∙ key_matches b z d same));
    apart = λ d c' my a. IsApart_head d c' my a;
    absent = λ j e. let away = deref-none j x xs e in rw away.0 away.1;
  }
    where
      IsApart_head :
          (d c : ℕ)
          → matches d c (renew b x) ≡ false
          → IsApart d c (x ∷ xs)
          → IsApart d c (renew b x ∷ xs)
      IsApart_head d c my (one_more h a) = one_more (λ l. my) a

-- How the second loop ends, where no buffer is one of block `b`.
data Recycled (disk : ℕ → ℕ → ℕ) (b : ℕ) (xs : List Buf) : Option (ℕ × List Buf) → Type 0 where
  all_used : ((j : ℕ) (z : Buf) → deref j xs ≡ some z → unused z ≡ false) → Recycled disk b xs none
  renews :
      (i : ℕ) (xs' : List Buf) (y : Buf)
      → IsGot disk b xs i xs' y
      → Recycled disk b xs (some (i, xs'))

recycle-Recycled :
    (disk : ℕ → ℕ → ℕ) (b : ℕ) (xs : List Buf)
    → IsOff b xs
    → IsCache disk xs
    → Recycled disk b xs (recycle 1 b xs)
unfolding recycle deref
recycle-Recycled disk b [] off_end no_buf = all_used (λ j z e. cc)
recycle-Recycled disk b (x ∷ xs) (off_more m o) (a_buf g ax nx c) =
    go (recycle-Recycled disk b xs o c)
  where
    none_unused :
        unused x ≡ false
        → ((j : ℕ) (z : Buf) → deref j xs ≡ some z → unused z ≡ false)
        → (j : ℕ) (z : Buf) → deref j (x ∷ xs) ≡ some z
        → unused z ≡ false
    none_unused u rest j z e = elim (deref_cases j x xs z e) [
      | inl here ↦ subst (λ w. unused w ≡ false) here.1 u
      | inr later ↦ rest j z later.1
    ]

    go :
        {r : Option (ℕ × List Buf)}
        → Recycled disk b xs r
        → Recycled disk b (x ∷ xs) (elim r [
          | some r' ↦ some (r'.0, x ∷ r'.1)
          | none ↦ if unused x then some (x.index, renew b x ∷ xs) else none
        ])
    go (renews i xs' y got) =
        renews i (x ∷ xs') y (IsGot-cons disk b x xs m i xs' y (a_buf g ax nx c) got)
    go (all_used rest) = elim (Bool-cases (unused x)) [
      | inl u ↦
          rw u (renews x.index _ _ (renewed-IsGot disk b x xs u (off_more m o) (a_buf g ax nx c)))
      | inr u ↦ rw u (all_used (none_unused u rest))
    ]

-- How bget ends: with a buffer of block `b`, or in a panic where none is and every buffer is used.
pub data Gets (disk : ℕ → ℕ → ℕ) (b : ℕ) (xs : List Buf) : Outcome (ℕ × List Buf) → Type 0 where
  gets : (i : ℕ) (xs' : List Buf) (y : Buf) → IsGot disk b xs i xs' y → Gets disk b xs (ok (i, xs'))
  no_buffers :
      IsOff b xs
      → ((j : ℕ) (z : Buf) → deref j xs ≡ some z → ((z.refcnt == 0) && not z.dirty) ≡ false)
      → Gets disk b xs panic

-- In a cache whose buffers agree with the disk, bget gives a buffer of the block and no other one
-- than a buffer of it that is referred to or valid; it keeps the agreement and what is seen of
-- every block. It panics only when no buffer is one of the block and each is referred to or dirty.
pub bget-Gets :
    (disk : ℕ → ℕ → ℕ) (b : ℕ) (xs : List Buf) → IsCache disk xs → Gets disk b xs (bget 1 b xs)
unfolding bget
bget-Gets disk b xs c = go (cached-Cached disk b xs c)
  where
    second :
        {r : Option (ℕ × List Buf)}
        → IsOff b xs
        → Recycled disk b xs r
        → Gets disk b xs (elim r [ some r' ↦ ok r' | none ↦ panic ])
    second o (all_used all) = no_buffers o all
    second o (renews i xs' y got) = gets i xs' y got

    go :
        {r : Option (ℕ × List Buf)}
        → Cached disk b xs r
        → Gets disk b xs (elim r [
          | some r' ↦ ok r'
          | none ↦ elim (recycle 1 b xs) [ some r' ↦ ok r' | none ↦ panic ]
        ])
    go (missing o) = second o (recycle-Recycled disk b xs o c)
    go (hit i xs' y got) = gets i xs' y got
