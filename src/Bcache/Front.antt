-- ===== src/Bcache/Front.antt =====
-- The last part of brelse: a buffer without references goes to the front of the list.
use mathlib.Core.Path.{subst}
use xv.Common.{
  ℕ, ◌≡◌, ◌≢◌, refl, sym, ◌∙◌, arith, true, false, Bool-cases, inl, inr, ==_iff, none, some, List,
  [], ◌∷◌, ◌==◌, if◌then◌else◌, ok,
}
use xv.Bcache.Buf.{Buf, deref, change}
use xv.Bcache.Get.{matches}
use xv.Bcache.Release.{unlink, drop_ref, put_buf}
use xv.Bcache.View.{
  content, view, live, IsApart, no_more, one_more, IsCache, no_buf, a_buf, matches-true, false≢true,
  deref_cases, deref-none, deref_index, apart-deref,
}
use xv.Bcache.Change.{IsChange, deref-IsGood, IsCache-change, view-change}
use xv.Bcache.Find.{key_matches}

module _ (i : ℕ) where
  IsApart-unlink : (d c : ℕ) (xs : List Buf) → IsApart d c xs → IsApart d c (unlink i xs)
  unfolding unlink
  IsApart-unlink d c [] no_more = no_more
  IsApart-unlink d c (x ∷ xs) (one_more h a) = elim (Bool-cases (x.index == i)) [
    | inl here ↦ rw here a
    | inr later ↦ rw later (one_more h (IsApart-unlink d c xs a))
  ]

  deref-unlink-none : (j : ℕ) (xs : List Buf) → deref j xs ≡ none → deref j (unlink i xs) ≡ none
  unfolding unlink deref
  deref-unlink-none j [] e = e
  deref-unlink-none j (x ∷ xs) e =
      let away = deref-none j x xs e in
      elim (Bool-cases (x.index == i)) [
        | inl here ↦ rw here away.1
        | inr later ↦ rw later (rw away.0 (deref-unlink-none j xs away.1))
      ]

  IsCache-unlink : (disk : ℕ → ℕ → ℕ) (xs : List Buf) → IsCache disk xs → IsCache disk (unlink i xs)
  unfolding unlink
  IsCache-unlink disk [] no_buf = no_buf
  IsCache-unlink disk (x ∷ xs) (a_buf g ax nx c) = elim (Bool-cases (x.index == i)) [
    | inl here ↦ rw here c
    | inr later ↦ rw later (
        a_buf g (IsApart-unlink x.dev x.blockno xs ax) (deref-unlink-none x.index xs nx)
          (IsCache-unlink disk xs c))
  ]

  deref-unlink : (disk : ℕ → ℕ → ℕ) (xs : List Buf) → IsCache disk xs → deref i (unlink i xs) ≡ none
  unfolding unlink deref
  deref-unlink disk [] no_buf = refl
  deref-unlink disk (x ∷ xs) (a_buf g ax nx c) = elim (Bool-cases (x.index == i)) [
    | inl here ↦ rw here (subst (λ j. deref j xs ≡ none) ((==_iff x.index i).0 here) nx)
    | inr later ↦ rw later (rw later (deref-unlink disk xs c))
  ]

  module _ (disk : ℕ → ℕ → ℕ) (y : Buf) (l : live y ≡ true) where
    -- The other buffers are not of the block of `y`.
    unlink-IsApart :
        (xs : List Buf)
        → IsCache disk xs
        → deref i xs ≡ some y
        → IsApart y.dev y.blockno (unlink i xs)
    unfolding unlink deref matches
    unlink-IsApart [] no_buf e = cc
    unlink-IsApart (x ∷ xs) (a_buf g ax nx c) e = elim (deref_cases i x xs y e) [
      | inl here ↦ rw here.0 (subst (λ z. IsApart z.dev z.blockno xs) here.1 ax)
      | inr later ↦
          let differ = apart-deref x.dev x.blockno i xs y ax later.1 l in
          rw later.0 (one_more (λ lx. ground (arith, differ)) (unlink-IsApart xs c later.1))
    ]

    view-unlink :
        (xs : List Buf)
        → IsCache disk xs
        → deref i xs ≡ some y
        → (b : ℕ)
        → view disk xs b ≡ (if matches 1 b y then content disk b y else view disk (unlink i xs) b)
    unfolding unlink deref view
    view-unlink [] no_buf e b = cc
    view-unlink (x ∷ xs) (a_buf g ax nx c) e b = elim (deref_cases i x xs y e) [
      | inl here ↦ rw here.0 (
          subst
            (λ z.
              view disk (x ∷ xs) b ≡ (if matches 1 b z then content disk b z else view disk xs b))
            here.1 refl)
      | inr later ↦ rw later.0 (elim (Bool-cases (matches 1 b x)) [
        | inl m ↦
            let key = matches-true 1 b x m in
            let differ : matches 1 b y ≡ false =
              subst (λ d. matches d b y ≡ false) key.0
                (subst (λ k. matches x.dev k y ≡ false) key.1
                  (apart-deref x.dev x.blockno i xs y ax later.1 l)) in
            rw m (rw differ refl)
        | inr m ↦ rw m (view-unlink xs c later.1 b)
      ])
    ]

-- A live buffer shows what is seen of its block.
pub view-deref :
    (disk : ℕ → ℕ → ℕ) (i : ℕ) (xs : List Buf) (y : Buf)
    → live y ≡ true
    → y.dev ≡ 1
    → IsCache disk xs
    → deref i xs ≡ some y
    → view disk xs y.blockno ≡ content disk y.blockno y
view-deref disk i xs y l d c e =
    view-unlink i disk y l xs c e y.blockno ∙ rw (key_matches y.blockno y d refl) refl

-- A change that keeps what the buffer shows keeps every view.
pub view-change_same :
    {disk disk' : ℕ → ℕ → ℕ} (i : ℕ) (f : Buf → Buf) (y : Buf) (xs : List Buf)
    → IsChange disk disk' y f
    → content disk' y.blockno (f y) ≡ content disk y.blockno y
    → IsCache disk xs
    → deref i xs ≡ some y
    → (b : ℕ) → view disk' (change i f xs) b ≡ view disk xs b
view-change_same {disk} {disk'} i f y xs k same c e b =
    view-change i f y k xs e c b ∙ elim (Bool-cases (y.blockno == b)) [
      | inl here ↦
          let at = (==_iff y.blockno b).0 here in
          rw here (
            subst (λ n. content disk' n (f y) ≡ view disk xs n) at
              (same ∙ sym (view-deref disk i xs y k.is_live k.first_disk c e)))
      | inr off ↦ rw off refl
    ]

-- The list `xs'` that brelse leaves when buffer `i`, `y` in the list `xs`, has one reference less.
pub record IsPut (disk : ℕ → ℕ → ℕ) (i : ℕ) (y : Buf) (xs xs' : List Buf) : Type 0 where
  pub cache : IsCache disk xs'
  pub views : (b : ℕ) → view disk xs' b ≡ view disk xs b
  pub in_front : (drop_ref y).refcnt ≡ 0 → xs' ≡ drop_ref y ∷ unlink i xs

-- In a cache whose buffers agree with the disk, the end of brelse on a buffer with references does
-- not panic; it keeps the agreement and what is seen of every block, and puts a buffer that is left
-- without references at the front of the list.
pub put_buf-IsPut :
    (disk : ℕ → ℕ → ℕ) (i : ℕ) (xs : List Buf) (y : Buf)
    → IsCache disk xs
    → deref i xs ≡ some y
    → y.refcnt ≢ 0
    → (xs' : List Buf) × (put_buf i xs ≡ ok xs') × IsPut disk i y xs xs'
unfolding put_buf view
put_buf-IsPut disk i xs y c e refs =
    let l : live y ≡ true = ground arith in
    let g = deref-IsGood i xs y c e in
    elim (Bool-cases ((drop_ref y).refcnt == 0)) [
      | inl out ↦ (
        drop_ref y ∷ unlink i xs,
        rw (e, put_buf) (rw out refl),
        record {
          cache =
              a_buf
                (record {
                  on_disk = λ l'. g.on_disk l;
                  dirty_valid = g.dirty_valid;
                  agrees = g.agrees;
                })
                (unlink-IsApart i disk y l xs c e)
                (rw (deref_index i xs y e) (deref-unlink i disk xs c)) (IsCache-unlink i disk xs c);
          views = λ b. sym (view-unlink i disk y l xs c e b);
          in_front = λ z. refl;
        },
      )
      | inr still ↦
          let k : IsChange disk disk y drop_ref = record {
            is_live = l;
            first_disk = g.on_disk l;
            same_index = refl;
            same_dev = refl;
            same_block = refl;
            good = record {
              on_disk = λ l'. g.on_disk l;
              dirty_valid = g.dirty_valid;
              agrees = g.agrees;
            };
            elsewhere = λ b ne. refl;
          } in
          (
            change i drop_ref xs,
            rw (e, put_buf) (rw still refl),
            record {
              cache = IsCache-change i drop_ref y k xs e c;
              views = λ b. view-change_same i drop_ref y xs k refl c e b;
              in_front = λ z. absurd (false≢true (sym still ∙ (==_iff _ 0).1 z));
            },
          )
    ]
