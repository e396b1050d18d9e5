-- ===== src/Proc/Turn.antt =====
-- The default scheduler: which slot it runs next.

use xv.Common.{
  ℕ, zero, suc, ◌+◌, ◌-◌, ◌≤◌, ◌<◌, ◌≡◌, refl, sym, ap, ◌∙◌, inl, inr, arith, true, false, Option,
  none, some, List, [], ◌∷◌, get_elem?, Bool-cases, drop, set, Outcome, ok, panic, ◌>>=◌,
}
use xv.Proc.Table.{running, runnable, Proc, Kernel, is}
use xv.Proc.Sched.{is_loaded, dispatch, default_round}
use xv.Proc.Scan.{First, missing, hit, first_from-First}

get_elem?-drop : (i j : ℕ) (ps : List Proc) → get_elem? (drop i ps) j ≡ get_elem? ps (i + j)
get_elem?-drop zero j ps = ap (get_elem? ps) (omega arith)
get_elem?-drop (suc i) j [] = refl
get_elem?-drop (suc i) j (p ∷ ps) =
    let later : suc (i + j) ≡ suc i + j = omega arith in
    get_elem?-drop i j ps ∙ ap (get_elem? (p ∷ ps)) later

-- No slot from `i` on, and before `n`, can run.
abbrev pub NoneFrom : (i n : ℕ) → List Proc → Type 0
NoneFrom i n ps =
    (j : ℕ) (q : Proc) → i ≤ j → j < n → get_elem? ps j ≡ some q → is runnable q ≡ false

-- What the scheduler does when its loop has come to slot `i`.
pub data NextRun (i : ℕ) (k : Kernel) : Outcome (Option ℕ × Kernel) → Type 0 where
  at_end : ((n : ℕ) → NoneFrom i n k.procs) → NextRun i k (ok (none, k))
  runs :
      (n : ℕ) (p : Proc)
      → i ≤ n
      → get_elem? k.procs n ≡ some p
      → is runnable p ≡ true
      → NoneFrom i n k.procs
      → is_loaded p ≡ true
      → NextRun i k (ok (some n, record k { procs = set k.procs n (record p { state = running }) }))
  faults :
      (n : ℕ) (p : Proc)
      → get_elem? k.procs n ≡ some p
      → is runnable p ≡ true
      → is_loaded p ≡ false
      → NextRun i k panic

back :
    (i j : ℕ) (ps : List Proc) {q : Proc}
    → i ≤ j
    → get_elem? ps j ≡ some q
    → get_elem? (drop i ps) (j - i) ≡ some q
back i j ps h e = get_elem?-drop i (j - i) ps ∙ ap (get_elem? ps) (omega arith) ∙ e

-- From slot `i` on, the default scheduler runs the first process that can run, sets that slot to
-- RUNNING and changes nothing else; it runs none only if none from there on can run, and panics only
-- if the process has no stack or no page table.
pub default_round-NextRun : (i : ℕ) (k : Kernel) → NextRun i k (default_round i k)
unfolding default_round dispatch
default_round-NextRun i k = go (first_from-First (is runnable) i (drop i k.procs))
  where
    go :
        {o : Option (ℕ × Proc)}
        → First (is runnable) i (drop i k.procs) o
        → NextRun i k (elim o [
          | none ↦ ok (none, k)
          | some (j, p) ↦ dispatch j p k >>= λ k'. ok (some j, k')
        ])
    go (missing out) = at_end (λ n j q low high e. out (j - i) q (back i j k.procs low e))
    go (hit j n p at there pass before) =
        let there' : get_elem? k.procs n ≡ some p =
          ap (get_elem? k.procs) at ∙ sym (get_elem?-drop i j k.procs) ∙ there in
        elim (Bool-cases (is_loaded p)) [
          | inl loaded ↦ rw loaded (
              runs n p (omega arith) there' pass
                (λ m q low high e. before (m - i) q (omega arith) (back i m k.procs low e)) loaded)
          | inr bare ↦ rw bare (faults n p there' pass bare)
        ]
