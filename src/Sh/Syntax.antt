-- ===== src/Sh/Syntax.antt =====
-- The commands that sh.c parses to.
use xv.Common.{ℕ, List, []}

abbrev pub max_args : ℕ
max_args = 10

abbrev pub o_rdonly : ℕ
o_rdonly = 0

abbrev pub o_wronly : ℕ
o_wronly = 1

abbrev pub o_create : ℕ
o_create = 0x200

-- `struct cmd` with its five kinds. A word between its two pointers is the list of its bytes, so
-- `argv` and `eargv` are one list, and the null command of a missing part does not occur.
pub data Cmd : Type 0 where
  exec : (argv : List (List ℕ)) → Cmd
  redir : Cmd → (file : List ℕ) → (mode fd : ℕ) → Cmd
  pipe : Cmd → Cmd → Cmd
  list : Cmd → Cmd → Cmd
  back : Cmd → Cmd

abbrev pub execcmd : Cmd
execcmd = exec []

abbrev pub redircmd : Cmd → (file : List ℕ) → (mode fd : ℕ) → Cmd
redircmd subcmd file mode fd = redir subcmd file mode fd

abbrev pub pipecmd : Cmd → Cmd → Cmd
pipecmd left right = pipe left right

abbrev pub listcmd : Cmd → Cmd → Cmd
listcmd left right = list left right

abbrev pub backcmd : Cmd → Cmd
backcmd subcmd = back subcmd
