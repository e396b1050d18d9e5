-- ===== src/Syscall/Args.antt =====
-- fetchint, fetchstr, argint, argptr and argstr of syscall.c; -1 is none, and a `uint` is a word of 32 bits.
use xv.Common.{
  ℕ, zero, suc, ◌+◌, ◌-◌, ◌*◌, ◌%◌, ◌^◌, ◌||◌, Option, none, some, List, ◌==◌, ltb, leb,
  if◌then◌else◌,
}
use xv.Strings.{Memory, load32}

-- What the current process has for its system calls: its memory and size, the stack pointer it
-- trapped with, and its open files, each an index into ftable.file.
pub record User : Type 0 where
  pub memory : Memory
  pub sz : ℕ
  pub esp : ℕ
  pub ofile : List (Option ℕ)

unfoldable pub fetchint : User → (addr : ℕ) → Option ℕ
fetchint u addr =
    if leb u.sz addr || ltb u.sz ((addr + 4) % 2 ^ 32) then none else some (load32 u.memory addr)

-- The loop of fetchstr from `s` on, for `rounds` bytes up to the size: how far the first zero is from
-- the start, given that `s` is `n` bytes from it.
unfoldable pub find_zero : Memory → (s n rounds : ℕ) → Option ℕ
find_zero m s n zero = none
find_zero m s n (suc rounds) =
    let rest = find_zero m (s + 1) (n + 1) rounds in if m s == 0 then some n else rest

-- the length of the string at addr
unfoldable pub fetchstr : User → (addr : ℕ) → Option ℕ
unfolding find_zero
fetchstr u addr = if leb u.sz addr then none else find_zero u.memory addr 0 (u.sz - addr)

unfoldable pub argint : User → (n : ℕ) → Option ℕ
unfolding fetchint
argint u n = fetchint u ((u.esp + 4 + 4 * n) % 2 ^ 32)

-- An int is negative as a word from 2 ^ 31 on.
unfoldable pub argptr : User → (n size : ℕ) → Option ℕ
unfolding argint
argptr u n size = elim (argint u n) [
  | none ↦ none
  | some i ↦
      if leb (2 ^ 31) size || (leb u.sz i || ltb u.sz ((i + size) % 2 ^ 32)) then none else some i
]

-- the string and its length
unfoldable pub argstr : User → (n : ℕ) → Option (ℕ × ℕ)
unfolding argint fetchstr
argstr u n = elim (argint u n) [
  | none ↦ none
  | some addr ↦ elim (fetchstr u addr) [ none ↦ none | some length ↦ some (addr, length) ]
]
