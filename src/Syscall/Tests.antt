-- ===== src/Syscall/Tests.antt =====
-- A process of one page with descriptor 1 open makes system calls.
use xv.Common.{
  ℕ, ◌+◌, ◌^◌, ◌≤◌, ◌<◌, ◌≡◌, ◌↔◌, refl, arith, true, Option, none, some, List, [], ◌∷◌, replicate,
  ◌==◌, if◌then◌else◌, ok,
}
use xv.Strings.{Memory}
use xv.Files.{File, fd_inode, Closers, filedup}
use xv.Syscall.Args.{User, fetchint, argint, argptr, argstr}
use xv.Syscall.Fd.{argfd, fdalloc, sys_dup, sys_close}
use xv.Syscall.Fetch.{argptr_iff, ArgStr, argstr-ArgStr}
use xv.Syscall.Close.{close-dup}

-- The stack has the words `fd` at 104 and 200 at 108, and the string "a" is at 200.
abbrev stack : (fd : ℕ) → Memory
stack fd a = if a == 104 then fd else if a == 108 then 200 else if a == 200 then 97 else 0

abbrev process : (fd : ℕ) → List (Option ℕ) → User
process fd ofile = record { memory = stack fd; sz = 4096; esp = 100; ofile = ofile }

abbrev one_open : List (Option ℕ)
one_open = none ∷ some 0 ∷ replicate 14 none

abbrev duplicated : List (Option ℕ)
duplicated = some 0 ∷ some 0 ∷ replicate 14 none

abbrev files : (ref : ℕ) → List File
files ref =
    record {
      type = fd_inode;
      ref = ref;
      readable = true;
      writable = true;
      pipe = 0;
      ip = 5;
      off = 0;
    }
    ∷ []

abbrev closers : Closers ℕ
closers = record { pipeclose = λ p w s. ok s; iput = λ i s. ok (s + 1) }

argptr_iff_example :
    (argptr (process 1 one_open) 1 8 ≡ some 200)
    ↔ ((argint (process 1 one_open) 1 ≡ some 200) × (8 < 2 ^ 31) × (200 < 4096) × (200 + 8 ≤ 4096))
argptr_iff_example = argptr_iff (process 1 one_open) (ground arith) 1 8 200

argstr-ArgStr_example : ArgStr (process 1 one_open) 1 (argstr (process 1 one_open) 1)
argstr-ArgStr_example = argstr-ArgStr (process 1 one_open) 1

close-dup_example :
    sys_close closers (process 0 duplicated) (files 2) 7
    ≡ ok (some 0, process 0 one_open, files 1, 7)
unfolding argfd argint fetchint sys_dup fdalloc filedup
close-dup_example =
    close-dup closers 7 (process 1 one_open) (process 1 duplicated) (process 0 duplicated) (files 1)
      (files 2) 1 0 0
      (record {
        type = fd_inode;
        ref = 1;
        readable = true;
        writable = true;
        pipe = 0;
        ip = 5;
        off = 0;
      })
      refl refl refl refl refl refl
