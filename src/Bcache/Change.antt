-- ===== src/Bcache/Change.antt =====
-- A change of a live buffer that keeps its block and index, with a change of the disk at its block.
use mathlib.Core.Path.{subst}
use xv.Common.{
  ℕ, ◌≡◌, ◌≢◌, refl, sym, ap, ap₂, ◌∙◌, arith, true, false, Bool-cases, inl, inr, none, some, List,
  [], ◌∷◌, ◌==◌, if◌then◌else◌,
}
use xv.Bcache.Buf.{Buf, deref, change}
use xv.Bcache.Get.{matches}
use xv.Bcache.View.{
  content, view, live, IsGood, IsApart, no_more, one_more, IsCache, no_buf, a_buf, matches-true,
  live-valid, false≢true, deref_cases, deref-none, apart-deref,
}

-- Buffer `y` becomes `f y`; the disk changes at most at its block.
pub record IsChange (disk disk' : ℕ → ℕ → ℕ) (y : Buf) (f : Buf → Buf) : Type 0 where
  pub is_live : live y ≡ true
  pub first_disk : y.dev ≡ 1
  pub same_index : (f y).index ≡ y.index
  pub same_dev : (f y).dev ≡ y.dev
  pub same_block : (f y).blockno ≡ y.blockno
  pub good : IsGood disk' (f y)
  pub elsewhere : (b : ℕ) → b ≢ y.blockno → disk' b ≡ disk b

-- Two buffers of different blocks of disk 1 have different numbers.
unmatched :
    (y x : Buf) → x.dev ≡ 1 → y.dev ≡ 1 → matches y.dev y.blockno x ≡ false → x.blockno ≢ y.blockno
unfolding matches
unmatched y x dx dy m same = false≢true (sym m ∙ ground arith)

pub deref-IsGood :
    {disk : ℕ → ℕ → ℕ} (i : ℕ) (xs : List Buf) (y : Buf)
    → IsCache disk xs
    → deref i xs ≡ some y
    → IsGood disk y
unfolding deref
deref-IsGood i [] y no_buf e = cc
deref-IsGood {disk} i (x ∷ xs) y (a_buf g ax nx c) e = elim (deref_cases i x xs y e) [
  | inl here ↦ subst (IsGood disk) here.1 g
  | inr later ↦ deref-IsGood i xs y c later.1
]

pub matches_blockno : (b : ℕ) (y : Buf) → y.dev ≡ 1 → matches 1 b y ≡ (y.blockno == b)
unfolding matches
matches_blockno b y d = rw d refl

view_elsewhere :
    (disk disk' : ℕ → ℕ → ℕ) (b : ℕ)
    → disk' b ≡ disk b
    → (xs : List Buf) → view disk' xs b ≡ view disk xs b
unfolding view
view_elsewhere disk disk' b e [] = e
view_elsewhere disk disk' b e (x ∷ xs) =
    ap₂ (λ d r. if matches 1 b x then (if x.valid then x.bytes else d) else r) e
      (view_elsewhere disk disk' b e xs)

module _ {disk disk' : ℕ → ℕ → ℕ} where
  IsGood-elsewhere :
      (x : Buf)
      → IsGood disk x
      → (x.valid ≡ true → disk' x.blockno ≡ disk x.blockno)
      → IsGood disk' x
  IsGood-elsewhere x g h = record {
    on_disk = g.on_disk;
    dirty_valid = g.dirty_valid;
    agrees = λ v clean. g.agrees v clean ∙ sym (h v);
  }

  IsCache-elsewhere :
      (y : Buf) (xs : List Buf)
      → y.dev ≡ 1
      → ((b : ℕ) → b ≢ y.blockno → disk' b ≡ disk b)
      → IsApart y.dev y.blockno xs
      → IsCache disk xs
      → IsCache disk' xs
  IsCache-elsewhere y [] dy off no_more c = no_buf
  IsCache-elsewhere y (x ∷ xs) dy off (one_more h a) (a_buf g ax nx c) =
      a_buf
        (IsGood-elsewhere x g
          (λ v. let l = live-valid x v in off x.blockno (unmatched y x (g.on_disk l) dy (h l))))
        ax nx (IsCache-elsewhere y xs dy off a c)

  module _ (i : ℕ) (f : Buf → Buf) (y : Buf) (k : IsChange disk disk' y f) where
    matches_same : (d b : ℕ) → matches d b (f y) ≡ matches d b y
    unfolding matches
    matches_same d b = rw k.same_dev (rw k.same_block refl)

    IsApart-change :
        (d b : ℕ) (xs : List Buf)
        → deref i xs ≡ some y
        → IsApart d b xs
        → IsApart d b (change i f xs)
    unfolding change
    IsApart-change d b [] e no_more = no_more
    IsApart-change d b (x ∷ xs) e (one_more h a) = elim (deref_cases i x xs y e) [
      | inl here ↦ rw here.0 (
          one_more
            (λ l.
              subst (λ z. matches d b (f z) ≡ false) (sym here.1)
                (matches_same d b
                  ∙ subst (λ z. live z ≡ true → matches d b z ≡ false) here.1 h k.is_live))
            a)
      | inr later ↦ rw later.0 (one_more h (IsApart-change d b xs later.1 a))
    ]

    deref-change-none :
        (j : ℕ) (xs : List Buf)
        → deref i xs ≡ some y
        → deref j xs ≡ none
        → deref j (change i f xs) ≡ none
    unfolding change deref
    deref-change-none j [] e n = n
    deref-change-none j (x ∷ xs) e n =
        let off = deref-none j x xs n in
        elim (deref_cases i x xs y e) [
          | inl here ↦
              let off' : ((f x).index == j) ≡ false =
                subst (λ z. ((f z).index == j) ≡ false) (sym here.1)
                  (rw k.same_index (subst (λ z. (z.index == j) ≡ false) here.1 off.0)) in
              rw here.0 (rw off' off.1)
          | inr later ↦ rw later.0 (rw off.0 (deref-change-none j xs later.1 off.1))
        ]

    pub deref-change : (xs : List Buf) → deref i xs ≡ some y → deref i (change i f xs) ≡ some (f y)
    unfolding change deref
    deref-change [] e = cc
    deref-change (x ∷ xs) e = elim (deref_cases i x xs y e) [
      | inl here ↦
          let at : ((f x).index == i) ≡ true =
            subst (λ z. ((f z).index == i) ≡ true) (sym here.1)
              (rw k.same_index (subst (λ z. (z.index == i) ≡ true) here.1 here.0)) in
          rw here.0 (rw at (ap (λ z. some (f z)) here.1))
      | inr later ↦ rw later.0 (rw later.0 (deref-change xs later.1))
    ]

    other_block :
        (x : Buf) (xs : List Buf)
        → IsApart x.dev x.blockno xs
        → IsCache disk xs
        → deref i xs ≡ some y
        → x.dev ≡ 1
        → y.blockno ≢ x.blockno
    other_block x xs ax c e d =
        unmatched x y ((deref-IsGood i xs y c e).on_disk k.is_live) d
          (apart-deref x.dev x.blockno i xs y ax e k.is_live)

    kept :
        (x : Buf) (xs : List Buf)
        → IsGood disk x
        → IsApart x.dev x.blockno xs
        → IsCache disk xs
        → deref i xs ≡ some y
        → IsGood disk' x
    kept x xs g ax c e = IsGood-elsewhere x g (λ v.
        k.elsewhere x.blockno
          (λ same. other_block x xs ax c e (g.on_disk (live-valid x v)) (sym same)))

    pub IsCache-change :
        (xs : List Buf) → deref i xs ≡ some y → IsCache disk xs → IsCache disk' (change i f xs)
    unfolding change
    IsCache-change [] e no_buf = no_buf
    IsCache-change (x ∷ xs) e (a_buf g ax nx c) = elim (deref_cases i x xs y e) [
      | inl here ↦ rw here.0 (
          subst (λ z. IsCache disk' (f z ∷ xs)) (sym here.1)
            (let gy : IsGood disk y = subst (IsGood disk) here.1 g in
              let ay : IsApart y.dev y.blockno xs =
                subst (λ z. IsApart z.dev z.blockno xs) here.1 ax in
              a_buf k.good (rw k.same_dev (rw k.same_block ay))
                (rw k.same_index (subst (λ z. deref z.index xs ≡ none) here.1 nx))
                (IsCache-elsewhere y xs (gy.on_disk k.is_live) k.elsewhere ay c)))
      | inr later ↦ rw later.0 (
          a_buf (kept x xs g ax c later.1) (IsApart-change x.dev x.blockno xs later.1 ax)
            (deref-change-none x.index xs later.1 nx) (IsCache-change xs later.1 c))
    ]

    view_first :
        (xs : List Buf) (b : ℕ)
        → view disk' (f y ∷ xs) b
          ≡ (if y.blockno == b then content disk' b (f y) else view disk (y ∷ xs) b)
    unfolding view
    view_first xs b = elim (Bool-cases (y.blockno == b)) [
      | inl here ↦ rw (matches_same 1 b) (rw (matches_blockno b y k.first_disk) (rw here refl))
      | inr off ↦ rw (matches_same 1 b) (
          rw (matches_blockno b y k.first_disk)
            (rw off (view_elsewhere disk disk' b (k.elsewhere b (ground (arith, off))) xs)))
    ]

    -- The view changes at most at the block of the buffer, to what the buffer then is.
    pub view-change :
        (xs : List Buf)
        → deref i xs ≡ some y
        → IsCache disk xs
        → (b : ℕ)
        → view disk' (change i f xs) b
          ≡ (if y.blockno == b then content disk' b (f y) else view disk xs b)
    unfolding change view deref
    view-change [] e c b = cc
    view-change (x ∷ xs) e (a_buf g ax nx c) b = elim (deref_cases i x xs y e) [
      | inl here ↦ rw here.0 (
          subst
            (λ z.
              view disk' (f z ∷ xs) b
              ≡ (if y.blockno == b then content disk' b (f y) else view disk (z ∷ xs) b))
            (sym here.1) (view_first xs b))
      | inr later ↦ rw later.0 (elim (Bool-cases (matches 1 b x)) [
        | inl m ↦
            let mx = matches-true 1 b x m in
            let apart : (y.blockno == b) ≡ false =
              ground (arith, other_block x xs ax c later.1 mx.0, mx.1) in
            let same : disk' b ≡ disk b = k.elsewhere b (ground (arith, apart)) in
            rw m (rw apart (rw same refl))
        | inr m ↦ rw m (view-change xs later.1 c b)
      ])
    ]
