-- ===== src/Icache/Scan.antt =====
-- The loop of iget over the table.
use mathlib.Core.Path.{subst}
use xv.Common.{
  ℕ, zero, suc, ◌+◌, ◌≡◌, ◌≢◌, refl, sym, ap, ◌∙◌, arith, inl, inr, true, false, ◌&&◌, Option, none,
  some, List, [], ◌∷◌, ◌==◌, get_elem?, ℕ_discrete, Bool-cases,
}
use xv.Icache.{Entry, in_use, Probe, hit, missing, remember, find_entry}

pub some-injective : (a b : Entry) → some a ≡ some b → a ≡ b
some-injective a b h = cc

-- The entry is in use for the inode.
pub record IsFor (dev inum : ℕ) (e : Entry) : Type 0 where
  pub used : in_use e ≡ true
  pub same_dev : e.dev ≡ dev
  pub same_inum : e.inum ≡ inum

abbrev pub Missed : (dev inum : ℕ) → List Entry → Type 0
Missed dev inum es = (j : ℕ) (e : Entry) → get_elem? es j ≡ some e → ¬ IsFor dev inum e

abbrev pub Full : List Entry → Type 0
Full es = (j : ℕ) (e : Entry) → get_elem? es j ≡ some e → e.ref ≢ 0

-- How a search of the entries from number `i` on ends.
pub data Scanned (dev inum i : ℕ) (es : List Entry) : Option ℕ → Probe → Type 0 where
  hits :
      (o : Option ℕ) (k j : ℕ) (e : Entry)
      → k ≡ i + j
      → get_elem? es j ≡ some e
      → IsFor dev inum e
      → Scanned dev inum i es o (hit k)
  keeps : (k : ℕ) → Missed dev inum es → Scanned dev inum i es (some k) (missing (some k))
  finds :
      (k j : ℕ) (e : Entry)
      → k ≡ i + j
      → get_elem? es j ≡ some e
      → e.ref ≡ 0
      → Missed dev inum es
      → Scanned dev inum i es none (missing (some k))
  fills : Missed dev inum es → Full es → Scanned dev inum i es none (missing none)

matches_IsFor :
    (dev inum : ℕ) (e : Entry)
    → (in_use e && (e.dev == dev) && (e.inum == inum)) ≡ true
    → IsFor dev inum e
matches_IsFor dev inum e h = record {
  used = ground (arith, h);
  same_dev = ground (arith, h);
  same_inum = ground (arith, h);
}

not_IsFor :
    (dev inum : ℕ) (e : Entry)
    → (in_use e && (e.dev == dev) && (e.inum == inum)) ≡ false
    → ¬ IsFor dev inum e
not_IsFor dev inum e h f = absurd (ground (arith, h, f.used, f.same_dev, f.same_inum))

Missed-cons :
    (dev inum : ℕ) (e : Entry) (es : List Entry)
    → ¬ IsFor dev inum e
    → Missed dev inum es
    → Missed dev inum (e ∷ es)
Missed-cons dev inum e es h m zero x g f = h (subst (IsFor dev inum) (sym (some-injective e x g)) f)
Missed-cons dev inum e es h m (suc j) x g f = m j x g f

Full-cons : (e : Entry) (es : List Entry) → e.ref ≢ 0 → Full es → Full (e ∷ es)
Full-cons e es h m zero x g f = h (ap (λ y. y.ref) (some-injective e x g) ∙ f)
Full-cons e es h m (suc j) x g f = m j x g f

-- The search of the rest, for a first entry that does not match: another has been remembered, or it
-- is unused and remembered, or it is not.
Scanned-cons_some :
    (dev inum i k : ℕ) (e : Entry) (es : List Entry) (s : Probe)
    → ¬ IsFor dev inum e
    → Scanned dev inum (i + 1) es (some k) s
    → Scanned dev inum i (e ∷ es) (some k) s
Scanned-cons_some dev inum i c e es s h (hits o k j x p g f) = hits o k (suc j) x (omega arith) g f
Scanned-cons_some dev inum i c e es s h (keeps k m) = keeps k (Missed-cons dev inum e es h m)

Scanned-cons_unused :
    (dev inum i : ℕ) (e : Entry) (es : List Entry) (s : Probe)
    → ¬ IsFor dev inum e
    → e.ref ≡ 0
    → Scanned dev inum (i + 1) es (some i) s
    → Scanned dev inum i (e ∷ es) none s
Scanned-cons_unused dev inum i e es s h z (hits o k j x p g f) =
    hits none k (suc j) x (omega arith) g f
Scanned-cons_unused dev inum i e es s h z (keeps k m) =
    finds k 0 e (omega arith) refl z (Missed-cons dev inum e es h m)

Scanned-cons_used :
    (dev inum i : ℕ) (e : Entry) (es : List Entry) (s : Probe)
    → ¬ IsFor dev inum e
    → e.ref ≢ 0
    → Scanned dev inum (i + 1) es none s
    → Scanned dev inum i (e ∷ es) none s
Scanned-cons_used dev inum i e es s h z (hits o k j x p g f) =
    hits none k (suc j) x (omega arith) g f
Scanned-cons_used dev inum i e es s h z (finds k j x p g y m) =
    finds k (suc j) x (omega arith) g y (Missed-cons dev inum e es h m)
Scanned-cons_used dev inum i e es s h z (fills m f) =
    fills (Missed-cons dev inum e es h m) (Full-cons e es z f)

Scanned-cons :
    (dev inum i : ℕ) (e : Entry) (es : List Entry) (o : Option ℕ) (s : Probe)
    → ¬ IsFor dev inum e
    → Scanned dev inum (i + 1) es (remember o i e) s
    → Scanned dev inum i (e ∷ es) o s
Scanned-cons dev inum i e es (some k) s h r = Scanned-cons_some dev inum i k e es s h r
Scanned-cons dev inum i e es none s h r = elim (ℕ_discrete e.ref 0) [
  | yes z ↦
      Scanned-cons_unused dev inum i e es s h z
        (subst (λ o. Scanned dev inum (i + 1) es o s) (ground (arith, z)) r)
  | no z ↦
      Scanned-cons_used dev inum i e es s h z
        (subst (λ o. Scanned dev inum (i + 1) es o s) (ground (arith, z)) r)
]

pub find_entry-Scanned :
    (dev inum i : ℕ) (o : Option ℕ) (es : List Entry)
    → Scanned dev inum i es o (find_entry dev inum i o es)
unfolding find_entry
find_entry-Scanned dev inum i (some k) [] = keeps k (λ j e g f. cc)
find_entry-Scanned dev inum i none [] = fills (λ j e g f. cc) (λ j e g. cc)
find_entry-Scanned dev inum i o (e ∷ es) =
    let ih = find_entry-Scanned dev inum (i + 1) (remember o i e) es in
    elim (Bool-cases (in_use e && (e.dev == dev) && (e.inum == inum))) [
      | inl m ↦ rw m (hits o i 0 e (omega arith) refl (matches_IsFor dev inum e m))
      | inr m ↦ rw m (
          Scanned-cons dev inum i e es o (find_entry dev inum (i + 1) (remember o i e) es)
            (not_IsFor dev inum e m) ih)
    ]
