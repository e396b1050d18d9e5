-- ===== src/Icache/Table.antt =====
-- The table of iget has one entry in use for an inode.
use mathlib.Core.Path.{subst}
use xv.Common.{
  ℕ, zero, suc, ◌≡◌, ◌≢◌, refl, sym, ap, ◌∙◌, arith, ◌⊎◌, inl, inr, true, none, some, List, [], ◌∷◌,
  set, get_elem?, Outcome, ok, panic,
}
use xv.Icache.{Entry, in_use, Probe, hit, missing, find_entry, at_entry, one_more, taken_for, iget}
use xv.Icache.Scan.{
  some-injective, IsFor, Missed, Full, Scanned, hits, finds, fills, find_entry-Scanned,
}

-- No two entries are in use for one inode.
abbrev pub IsTable : List Entry → Type 0
IsTable es =
    (i j : ℕ) (a b : Entry)
    → get_elem? es i ≡ some a
    → get_elem? es j ≡ some b
    → in_use a ≡ true
    → IsFor a.dev a.inum b
    → i ≡ j

-- How iget ends.
pub data Got (dev inum : ℕ) (es : List Entry) : Outcome (ℕ × List Entry) → Type 0 where
  -- the entry of the inode, with one more reference
  shares :
      (i : ℕ) (e : Entry)
      → get_elem? es i ≡ some e
      → IsFor dev inum e
      → IsTable (set es i (one_more e))
      → Got dev inum es (ok (i, set es i (one_more e)))
  -- an unused entry, which becomes the only one of the inode, with one reference and not yet read
  takes :
      (i : ℕ) (e : Entry)
      → get_elem? es i ≡ some e
      → e.ref ≡ 0
      → Missed dev inum es
      → IsTable (set es i (taken_for dev inum e))
      → Got dev inum es (ok (i, set es i (taken_for dev inum e)))
  -- no entry is the inode's, and none is unused
  runs_out : Missed dev inum es → Full es → Got dev inum es panic

-- Where an entry of the changed table comes from.
set-origin :
    (es : List Entry) (i j : ℕ) (e' a : Entry)
    → get_elem? (set es i e') j ≡ some a
    → ((j ≡ i) × (a ≡ e')) ⊎ ((j ≢ i) × (get_elem? es j ≡ some a))
set-origin [] i j e' a g = absurd cc
set-origin (x ∷ es) zero zero e' a g = inl (refl, sym (some-injective e' a g))
set-origin (x ∷ es) zero (suc j) e' a g = inr (λ p. omega (arith, p), g)
set-origin (x ∷ es) (suc i) zero e' a g = inr (λ p. omega (arith, p), g)
set-origin (x ∷ es) (suc i) (suc j) e' a g = elim (set-origin es i j e' a g) [
  | inl h ↦ inl (ap suc h.0, h.1)
  | inr h ↦ inr (λ p. h.0 (omega (arith, p)), h.1)
]

-- A change of one entry keeps the table, when no other entry is in use for its inode.
set-IsTable :
    (es : List Entry) (i : ℕ) (e' : Entry)
    → IsTable es
    → ((j : ℕ) (b : Entry) → j ≢ i → get_elem? es j ≡ some b → ¬ IsFor e'.dev e'.inum b)
    → IsTable (set es i e')
set-IsTable es i e' t alone j k a b ga gb used same = elim (set-origin es i j e' a ga) [
  | inl h ↦ elim (set-origin es i k e' b gb) [
    | inl h' ↦ h.0 ∙ sym h'.0
    | inr h' ↦ absurd (alone k b h'.0 h'.1 (subst (λ x. IsFor x.dev x.inum b) h.1 same))
  ]
  | inr h ↦ elim (set-origin es i k e' b gb) [
    | inl h' ↦ absurd (
        alone j a h.0 h.1 (record {
          used = used;
          same_dev = sym same.same_dev ∙ ap (λ x. x.dev) h'.1;
          same_inum = sym same.same_inum ∙ ap (λ x. x.inum) h'.1;
        }))
    | inr h' ↦ t j k a b h.1 h'.1 used same
  ]
]

get_elem?-at_entry :
    (es : List Entry) (i : ℕ) (e : Entry) (f : Entry → Entry)
    → get_elem? es i ≡ some e
    → at_entry i f es ≡ set es i (f e)
get_elem?-at_entry es i e f g = ap (λ o. elim o [ none ↦ es | some x ↦ set es i (f x) ]) g

-- iget, on a table with at most one entry in use for each inode: it returns the entry in use for
-- the inode with one more reference, or else an unused entry made the inode's, and either way the
-- table still has at most one entry in use for each inode; it panics when the inode has no entry
-- and all are taken.
pub iget-Got : (dev inum : ℕ) (es : List Entry) → IsTable es → Got dev inum es (iget dev inum es)
unfolding iget
iget-Got dev inum es t = got (find_entry dev inum 0 none es) (find_entry-Scanned dev inum 0 none es)
  where
    got :
        (s : Probe)
        → Scanned dev inum 0 es none s
        → Got dev inum es (elim s [
          | hit i ↦ ok (i, at_entry i one_more es)
          | missing none ↦ panic
          | missing (some i) ↦ ok (i, at_entry i (taken_for dev inum) es)
        ])
    got s (hits o k j e p g f) =
        let here = subst (λ n. get_elem? es n ≡ some e) (omega (arith, p)) g in
        subst (λ es'. Got dev inum es (ok (k, es'))) (sym (get_elem?-at_entry es k e one_more here))
          (shares k e here f (
            set-IsTable es k (one_more e) t
              (λ j' b ne gb same. ne (sym (t k j' e b here gb f.used same)))))
    got s (finds k j e p g z m) =
        let here = subst (λ n. get_elem? es n ≡ some e) (omega (arith, p)) g in
        subst (λ es'. Got dev inum es (ok (k, es')))
          (sym (get_elem?-at_entry es k e (taken_for dev inum) here))
          (takes k e here z m
            (set-IsTable es k (taken_for dev inum e) t (λ j' b ne gb same. m j' b gb same)))
    got s (fills m f) = runs_out m f
