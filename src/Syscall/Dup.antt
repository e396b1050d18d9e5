-- ===== src/Syscall/Dup.antt =====
-- dup gives the lowest free descriptor.
use mathlib.Core.Path.{subst}
use xv.Common.{
  ℕ, zero, suc, ◌+◌, ◌<◌, ◌≡◌, ◌≢◌, refl, arith, Option, none, some, List, [], ◌∷◌, length, get_or,
  set, Outcome, ok, panic, ◌>>=◌,
}
use xv.Files.{File, filedup}
use xv.Syscall.Args.{User}
use xv.Syscall.Fd.{argfd, fdalloc, sys_dup}

zero_+ : (a : ℕ) → a ≡ 0 + a
zero_+ a = omega arith

-- What fdalloc makes of the entries: the first free one, number `k`, is for `f`, or all are in use.
pub data Alloc (f fd : ℕ) (ofile : List (Option ℕ)) : Option (ℕ × List (Option ℕ)) → Type 0 where
  all_open : ((k : ℕ) → k < length ofile → get_or ofile k none ≢ none) → Alloc f fd ofile none
  lowest :
      (k : ℕ)
      → k < length ofile
      → get_or ofile k none ≡ none
      → ((j : ℕ) → j < k → get_or ofile j none ≢ none)
      → Alloc f fd ofile (some (fd + k, set ofile k (some f)))

fdalloc-Alloc : (f fd : ℕ) (ofile : List (Option ℕ)) → Alloc f fd ofile (fdalloc f fd ofile)
unfolding fdalloc
fdalloc-Alloc f fd [] = all_open (λ k lt. absurd (omega arith))
fdalloc-Alloc f fd (none ∷ ofile) =
    subst (λ n. Alloc f fd (none ∷ ofile) (some (n, some f ∷ ofile))) (+_zero fd)
      (lowest 0 (omega arith) refl (λ j lt. absurd (omega arith)))
  where
    +_zero : (a : ℕ) → a + 0 ≡ a
    +_zero a = omega arith
fdalloc-Alloc f fd (some g ∷ ofile) = go (fdalloc-Alloc f (suc fd) ofile)
  where
    taken :
        (k : ℕ)
        → ((j : ℕ) → j < k → get_or ofile j none ≢ none)
        → (j : ℕ) → j < suc k
        → get_or (some g ∷ ofile) j none ≢ none
    taken k rest zero lt = λ e. cc
    taken k rest (suc j) lt = rest j (omega arith)

    +_suc : (a b : ℕ) → a + suc b ≡ suc a + b
    +_suc a b = omega arith

    go :
        {r : Option (ℕ × List (Option ℕ))}
        → Alloc f (suc fd) ofile r
        → Alloc f fd
            (some g ∷ ofile)
            (elim r [ none ↦ none | some r' ↦ some (r'.0, some g ∷ r'.1) ])
    go (all_open all) = all_open (taken (length ofile) all)
    go (lowest k lt free below) =
        subst (λ n. Alloc f fd (some g ∷ ofile) (some (n, some g ∷ set ofile k (some f))))
          (+_suc fd k) (lowest (suc k) (omega arith) free (taken k below))

-- What dup does with the descriptor in argument 0.
pub data Dup (u : User) (files : List File) : Outcome (Option ℕ × User × List File) → Type 0 where
  bad_fd : argfd u 0 ≡ none → Dup u files (ok (none, u, files))
  too_many :
      (fd f : ℕ)
      → argfd u 0 ≡ some (fd, f)
      → ((k : ℕ) → k < length u.ofile → get_or u.ofile k none ≢ none)
      → Dup u files (ok (none, u, files))
  unreferenced : (fd f : ℕ) → argfd u 0 ≡ some (fd, f) → filedup f files ≡ panic → Dup u files panic
  dup :
      (fd f k : ℕ) (files' : List File)
      → argfd u 0 ≡ some (fd, f)
      → k < length u.ofile
      → get_or u.ofile k none ≡ none
      → ((j : ℕ) → j < k → get_or u.ofile j none ≢ none)
      → filedup f files ≡ ok files'
      → Dup u files (ok (some k, record u { ofile = set u.ofile k (some f) }, files'))

-- dup of a descriptor that is not open returns -1, and so does dup when all descriptors are in use, and
-- neither changes anything; else the lowest descriptor that is free becomes one of the same file, which
-- has one reference more, and is returned. It panics only where filedup does.
pub sys_dup-Dup : (u : User) (files : List File) → Dup u files (sys_dup u files)
unfolding sys_dup
sys_dup-Dup u files = go (argfd u 0) refl
  where
    last :
        (fd f k : ℕ) {r : Outcome (List File)}
        → argfd u 0 ≡ some (fd, f)
        → k < length u.ofile
        → get_or u.ofile k none ≡ none
        → ((j : ℕ) → j < k → get_or u.ofile j none ≢ none)
        → filedup f files ≡ r
        → Dup u files
            (r >>= λ files'. ok (some k, record u { ofile = set u.ofile k (some f) }, files'))
    last fd f k {r = panic} e h free below e' = unreferenced fd f e e'
    last fd f k {r = ok files'} e h free below e' = dup fd f k files' e h free below e'

    alloc :
        (fd f : ℕ) {r : Option (ℕ × List (Option ℕ))}
        → argfd u 0 ≡ some (fd, f)
        → Alloc f 0 u.ofile r
        → Dup u files (elim r [
          | none ↦ ok (none, u, files)
          | some new ↦
              filedup f files >>= λ files'. ok (some new.0, record u { ofile = new.1 }, files')
        ])
    alloc fd f e (all_open all) = too_many fd f e all
    alloc fd f e (lowest k lt free below) =
        subst
          (λ n. Dup u files (
            filedup f files >>= λ files'.
            ok (some n, record u { ofile = set u.ofile k (some f) }, files')))
          (zero_+ k) (last fd f k e lt free below refl)

    go :
        (o : Option (ℕ × ℕ))
        → argfd u 0 ≡ o
        → Dup u files (elim o [
          | none ↦ ok (none, u, files)
          | some r ↦ elim (fdalloc r.1 0 u.ofile) [
            | none ↦ ok (none, u, files)
            | some new ↦
                filedup r.1 files >>= λ files'. ok (some new.0, record u { ofile = new.1 }, files')
          ]
        ])
    go none e = bad_fd e
    go (some r) e = alloc r.0 r.1 e (fdalloc-Alloc r.1 0 u.ofile)
