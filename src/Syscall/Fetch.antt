-- ===== src/Syscall/Fetch.antt =====
-- An argument that is accepted lies in the memory of the process.
use mathlib.Core.Path.{subst}
use xv.Common.{
  ℕ, zero, suc, ◌+◌, ◌-◌, ◌*◌, ◌%◌, ◌^◌, ◌≤◌, ◌<◌, ◌≡◌, ◌≢◌, ◌↔◌, refl, sym, ap, ◌∙◌, arith, false,
  Bool-cases, ◌||◌, inl, inr, Option, none, some, ◌==◌, ==_iff, ltb, leb, leb→le, if◌then◌else◌,
}
use xv.Strings.{Memory, load32}
use xv.Syscall.Args.{User, fetchint, find_zero, fetchstr, argint, argptr, argstr}

module _ (u : User) (small : u.sz ≤ 2 ^ 31) where
  -- Where the process is no larger than 2 ^ 31 bytes, argint accepts an argument just when its four
  -- bytes, at the address that wraps at 32 bits, lie in the memory of the process; it gives their word.
  pub argint_iff :
      (n v : ℕ)
      → (argint u n ≡ some v) ↔ (
          ((u.esp + 4 + 4 * n) % 2 ^ 32 + 4 ≤ u.sz)
          × (load32 u.memory ((u.esp + 4 + 4 * n) % 2 ^ 32) ≡ v))
  unfolding argint fetchint
  argint_iff n v = ground arith

  -- Where the process is no larger than 2 ^ 31 bytes, argptr accepts a pointer just when argint does,
  -- the size is not negative, and the pointer and the block of that size at it lie in the memory of the
  -- process.
  pub argptr_iff :
      (n size p : ℕ)
      → (argptr u n size ≡ some p)
        ↔ ((argint u n ≡ some p) × (size < 2 ^ 31) × (p < u.sz) × (p + size ≤ u.sz))
  unfolding argptr
  argptr_iff n size p = go (argint u n)
    where
      go :
          (o : Option ℕ)
          → (elim o [
            | none ↦ none
            | some i ↦
                if leb (2 ^ 31) size || (leb u.sz i || ltb u.sz ((i + size) % 2 ^ 32))
                then none
                else some i
          ]
              ≡ some p)
            ↔ ((o ≡ some p) × (size < 2 ^ 31) × (p < u.sz) × (p + size ≤ u.sz))
      go none = ground arith
      go (some i) = ground arith

-- What the loop of fetchstr finds: the first zero of the bytes left, `k` bytes on, or none.
data Scanned (m : Memory) (s n rounds : ℕ) : Option ℕ → Type 0 where
  no_zero : ((j : ℕ) → j < rounds → m (s + j) ≢ 0) → Scanned m s n rounds none
  zero_at :
      (k : ℕ)
      → k < rounds
      → m (s + k) ≡ 0
      → ((j : ℕ) → j < k → m (s + j) ≢ 0)
      → Scanned m s n rounds (some (n + k))

+_zero : (a : ℕ) → a + 0 ≡ a
+_zero a = omega arith

zero_+ : (a : ℕ) → a ≡ 0 + a
zero_+ a = omega arith

+_suc : (a b : ℕ) → a + suc b ≡ a + 1 + b
+_suc a b = omega arith

-- A byte that is not zero comes before what is scanned.
before :
    (m : Memory) (s k : ℕ)
    → (m s == 0) ≡ false
    → ((j : ℕ) → j < k → m (s + 1 + j) ≢ 0)
    → (j : ℕ) → j < suc k
    → m (s + j) ≢ 0
before m s k first rest zero lt = λ e. ground (arith, first, ap m (+_zero s), e)
before m s k first rest (suc j) lt = λ e. rest j (omega arith) (ap m (sym (+_suc s j)) ∙ e)

find_zero-Scanned : (m : Memory) (rounds s n : ℕ) → Scanned m s n rounds (find_zero m s n rounds)
unfolding find_zero
find_zero-Scanned m zero s n = no_zero (λ j lt. absurd (omega arith))
find_zero-Scanned m (suc rounds) s n = elim (Bool-cases (m s == 0)) [
  | inl end ↦ rw end (
      subst (λ l. Scanned m s n (suc rounds) (some l)) (+_zero n)
        (zero_at 0 (omega arith) (ap m (+_zero s) ∙ (==_iff (m s) 0).0 end)
          (λ j lt. absurd (omega arith))))
  | inr more ↦ rw more (go more (find_zero-Scanned m rounds (s + 1) (n + 1)))
]
  where
    go :
        {r : Option ℕ}
        → (m s == 0) ≡ false
        → Scanned m (s + 1) (n + 1) rounds r
        → Scanned m s n (suc rounds) r
    go more (no_zero all) = no_zero (before m s rounds more all)
    go more (zero_at k lt z all) =
        subst (λ l. Scanned m s n (suc rounds) (some l)) (+_suc n k)
          (zero_at (suc k) (omega arith) (ap m (+_suc s k) ∙ z) (before m s k more all))

-- What argstr makes of argument `n`.
pub data ArgStr (u : User) (n : ℕ) : Option (ℕ × ℕ) → Type 0 where
  no_arg : argint u n ≡ none → ArgStr u n none
  outside : (p : ℕ) → argint u n ≡ some p → u.sz ≤ p → ArgStr u n none
  no_end :
      (p : ℕ)
      → argint u n ≡ some p
      → ((j : ℕ) → p + j < u.sz → u.memory (p + j) ≢ 0)
      → ArgStr u n none
  string :
      (p length : ℕ)
      → argint u n ≡ some p
      → p + length < u.sz
      → u.memory (p + length) ≡ 0
      → ((j : ℕ) → j < length → u.memory (p + j) ≢ 0)
      → ArgStr u n (some (p, length))

-- argstr fails just when argint does, or the pointer is outside the memory of the process, or no byte
-- from it to the end of that memory is zero; else it gives the pointer and the length of the string
-- there, whose bytes and terminating zero lie in the memory of the process.
pub argstr-ArgStr : (u : User) (n : ℕ) → ArgStr u n (argstr u n)
unfolding argstr fetchstr
argstr-ArgStr u n = go (argint u n) refl
  where
    found :
        (p : ℕ) {r : Option ℕ}
        → argint u n ≡ some p
        → p < u.sz
        → Scanned u.memory p 0 (u.sz - p) r
        → ArgStr u n (elim r [ none ↦ none | some length ↦ some (p, length) ])
    found p e h (no_zero all) = no_end p e (λ j lt. all j (omega arith))
    found p e h (zero_at k lt z all) =
        subst (λ l. ArgStr u n (some (p, l))) (zero_+ k) (string p k e (omega arith) z all)

    go :
        (o : Option ℕ)
        → argint u n ≡ o
        → ArgStr u n (elim o [
          | none ↦ none
          | some p ↦ elim (if leb u.sz p then none else find_zero u.memory p 0 (u.sz - p)) [
            | none ↦ none
            | some length ↦ some (p, length)
          ]
        ])
    go none e = no_arg e
    go (some p) e = elim (Bool-cases (leb u.sz p)) [
      | inl out ↦ rw out (outside p e (leb→le u.sz p out))
      | inr inside ↦
          rw inside (found p e (ground (arith, inside)) (find_zero-Scanned u.memory (u.sz - p) p 0))
    ]
