-- ===== src/Proc/Select.antt =====
-- The selection loops pick the runnable process with the least key, the first of equals.
use mathlib.Core.List.{append-nil, append_assoc}
use mathlib.Core.Path.{subst, subst₂}
use xv.Common.{
  ℕ, zero, suc, ◌≤◌, ◌<◌, ◌≡◌, refl, sym, ap, ◌∙◌, ◌⊎◌, inl, inr, arith, true, false, Option, none,
  some, List, [], ◌∷◌, ◌++◌, get_elem?, length, Bool-cases, ◌&&◌, ltb,
}
use xv.Proc.Table.{Proc, is, runnable}
use xv.Proc.Sched.{choose, select_from}

module _ {ℓ} {A : Type ℓ} where
  pub get_elem?-lt : (xs : List A) (j : ℕ) {q : A} → get_elem? xs j ≡ some q → j < length xs
  get_elem?-lt [] j e = absurd (cc e)
  get_elem?-lt (x ∷ xs) zero e = omega arith
  get_elem?-lt (x ∷ xs) (suc j) e = omega (arith, get_elem?-lt xs j e)

  pub get_elem?-append :
      (xs ys : List A) (j : ℕ) {q : A} → get_elem? xs j ≡ some q → get_elem? (xs ++ ys) j ≡ some q
  get_elem?-append [] ys j e = absurd (cc e)
  get_elem?-append (x ∷ xs) ys zero e = e
  get_elem?-append (x ∷ xs) ys (suc j) e = get_elem?-append xs ys j e

  pub get_elem?-snoc_last : (xs : List A) (p : A) → get_elem? (xs ++ (p ∷ [])) (length xs) ≡ some p
  get_elem?-snoc_last [] p = refl
  get_elem?-snoc_last (x ∷ xs) p = get_elem?-snoc_last xs p

  -- An element of a list with one more at its end is an old one, or that one.
  pub get_elem?-snoc :
      (xs : List A) (p : A) (j : ℕ) {q : A}
      → get_elem? (xs ++ (p ∷ [])) j ≡ some q
      → (get_elem? xs j ≡ some q) ⊎ ((j ≡ length xs) × (p ≡ q))
  get_elem?-snoc [] p zero e = inr (refl, cc)
  get_elem?-snoc [] p (suc j) e = absurd (cc e)
  get_elem?-snoc (x ∷ xs) p zero e = inl e
  get_elem?-snoc (x ∷ xs) p (suc j) e = elim (get_elem?-snoc xs p j e) [
    | inl old ↦ inl old
    | inr (at, same) ↦ inr (ap suc at, same)
  ]

length-snoc {ℓ} : {A : Type ℓ} (xs : List A) (p : A) → length (xs ++ (p ∷ [])) ≡ suc (length xs)
length-snoc [] p = refl
length-snoc (x ∷ xs) p = ap suc (length-snoc xs p)

-- No process of the table can run.
abbrev pub NoneRunnable : List Proc → Type 0
NoneRunnable ps = (j : ℕ) (q : Proc) → get_elem? ps j ≡ some q → is runnable q ≡ false

-- Slot `i` holds `p`, which can run and has the least key, and smaller than those before it.
pub record IsBest (key : Proc → ℕ) (ps : List Proc) (i : ℕ) (p : Proc) : Type 0 where
  pub slot : get_elem? ps i ≡ some p
  pub can_run : is runnable p ≡ true
  pub least : (j : ℕ) (q : Proc) → get_elem? ps j ≡ some q → is runnable q ≡ true → key p ≤ key q
  pub before :
      (j : ℕ) (q : Proc) → get_elem? ps j ≡ some q → j < i → is runnable q ≡ true → key p < key q

pub data Picks (key : Proc → ℕ) (ps : List Proc) : Option (ℕ × Proc) → Type 0 where
  idle : NoneRunnable ps → Picks key ps none
  picks : (i : ℕ) (p : Proc) → IsBest key ps i p → Picks key ps (some (i, p))

module _ (key : Proc → ℕ) (ps : List Proc) (p : Proc) where
  abbrev longer : List Proc
  longer = ps ++ (p ∷ [])

  choose-Picks :
      {o : Option (ℕ × Proc)} → Picks key ps o → Picks key longer (choose key o (length ps) p)
  choose-Picks (idle dead) = elim (Bool-cases (is runnable p)) [
    | inl run ↦ rw run (
        picks (length ps) p (record {
          slot = get_elem?-snoc_last ps p;
          can_run = run;
          least = λ j q e r. elim (get_elem?-snoc ps p j e) [
            | inl old ↦ absurd (cc (sym (dead j q old) ∙ r))
            | inr (at, same) ↦ rw same (omega arith)
          ];
          before = λ j q e lt r. elim (get_elem?-snoc ps p j e) [
            | inl old ↦ absurd (cc (sym (dead j q old) ∙ r))
            | inr (at, same) ↦ absurd (omega arith)
          ];
        }))
    | inr stop ↦ rw stop (
        idle (λ j q e. elim (get_elem?-snoc ps p j e) [
          | inl old ↦ dead j q old
          | inr (at, same) ↦ subst (λ x. is runnable x ≡ false) same stop
        ]))
  ]
  choose-Picks (picks i b best) = elim (Bool-cases (is runnable p && ltb (key p) (key b))) [
    | inl better ↦
        let run : is runnable p ≡ true = ground arith in
        let less : key p < key b = ground arith in
        rw better (
          picks (length ps) p (record {
            slot = get_elem?-snoc_last ps p;
            can_run = run;
            least = λ j q e r. elim (get_elem?-snoc ps p j e) [
              | inl old ↦ omega (arith, best.least j q old r)
              | inr (at, same) ↦ rw same (omega arith)
            ];
            before = λ j q e lt r. elim (get_elem?-snoc ps p j e) [
              | inl old ↦ omega (arith, best.least j q old r)
              | inr (at, same) ↦ absurd (omega arith)
            ];
          }))
    | inr worse ↦ rw worse (
        picks i b (record {
          slot = get_elem?-append ps (p ∷ []) i best.slot;
          can_run = best.can_run;
          least = λ j q e r. elim (get_elem?-snoc ps p j e) [
            | inl old ↦ best.least j q old r
            | inr (at, same) ↦
                let run : is runnable p ≡ true = subst (λ x. is runnable x ≡ true) (sym same) r in
                let more : key b ≤ key p = ground arith in subst (λ x. key b ≤ key x) same more
          ];
          before = λ j q e lt r. elim (get_elem?-snoc ps p j e) [
            | inl old ↦ best.before j q old lt r
            | inr (at, same) ↦ absurd (omega (arith, get_elem?-lt ps i best.slot))
          ];
        }))
  ]

select_from-Picks :
    (key : Proc → ℕ) (pre ps : List Proc) {o : Option (ℕ × Proc)}
    → Picks key pre o
    → Picks key (pre ++ ps) (select_from key o (length pre) ps)
unfolding select_from
select_from-Picks key pre [] h = rw (append-nil pre) h
select_from-Picks key pre (p ∷ ps) {o} h =
    subst₂ (λ l n. Picks key l (select_from key (choose key o (length pre) p) n ps))
      (append_assoc pre (p ∷ []) ps) (length-snoc pre p)
      (select_from-Picks key (pre ++ (p ∷ [])) ps (choose-Picks key pre p h))

-- The loop picks, of the processes that can run, the first of those with the least key; it picks
-- none only if no process can run.
pub select-Picks : (key : Proc → ℕ) (ps : List Proc) → Picks key ps (select_from key none 0 ps)
select-Picks key ps = select_from-Picks key [] ps (idle (λ j q e. absurd (cc e)))
