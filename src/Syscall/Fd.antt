-- ===== src/Syscall/Fd.antt =====
-- argfd, fdalloc, sys_dup and sys_close of sysfile.c.
use xv.Common.{
  ℕ, suc, ◌^◌, ◌||◌, Option, none, some, List, [], ◌∷◌, leb, if◌then◌else◌, get_or, set, Outcome,
  ok, ◌>>=◌,
}
use xv.Files.{File, Closers, filedup, fileclose}
use xv.Syscall.Args.{User, argint}

abbrev pub nofile : ℕ
nofile = 16

-- the descriptor and its file
unfoldable pub argfd : User → (n : ℕ) → Option (ℕ × ℕ)
unfolding argint
argfd u n = elim (argint u n) [
  | none ↦ none
  | some fd ↦
      let open_file : Option (ℕ × ℕ) = elim (get_or u.ofile fd none) [
        | none ↦ none
        | some f ↦ some (fd, f)
      ] in
      if leb (2 ^ 31) fd || leb nofile fd then none else open_file
]

-- the loop of fdalloc from descriptor `fd` on, over the entries that are left
unfoldable pub fdalloc : (f fd : ℕ) → List (Option ℕ) → Option (ℕ × List (Option ℕ))
fdalloc f fd [] = none
fdalloc f fd (none ∷ ofile) = some (fd, some f ∷ ofile)
fdalloc f fd (some g ∷ ofile) = elim (fdalloc f (suc fd) ofile) [
  | none ↦ none
  | some r ↦ some (r.0, some g ∷ r.1)
]

-- A call returns a number, or none for -1, and leaves the process and the table of files.
unfoldable pub sys_dup : User → List File → Outcome (Option ℕ × User × List File)
unfolding argfd fdalloc filedup
sys_dup u files = elim (argfd u 0) [
  | none ↦ ok (none, u, files)
  | some r ↦ elim (fdalloc r.1 0 u.ofile) [
    | none ↦ ok (none, u, files)
    | some new ↦ filedup r.1 files >>= λ files'. ok (some new.0, record u { ofile = new.1 }, files')
  ]
]

unfoldable pub sys_close :
    {S : Type 0} → Closers S → User → List File → S → Outcome (Option ℕ × User × List File × S)
unfolding argfd fileclose
sys_close closers u files s = elim (argfd u 0) [
  | none ↦ ok (none, u, files, s)
  | some r ↦ fileclose closers r.1 files s >>= λ (files', s').
      ok (some 0, record u { ofile = set u.ofile r.0 none }, files', s')
]
