-- ===== src/Strings.antt =====
-- string.c: the kernel's memory and string routines, over a memory of bytes. Pointers are addresses
-- that do not wrap; `char` is read as the unsigned byte that the routines compare.
pub mod Move
pub mod Fill
pub mod Compare
mod Tests
use xv.Common.{
  ℕ, zero, suc, ◌+◌, ◌*◌, ◌/◌, ◌%◌, Bool, true, false, ◌&&◌, not, Option, none, some, ◌==◌, ltb,
  if◌then◌else◌, update,
}
use xv.Common.Int.{ℤ, pos, sub_ℕ}

abbrev pub Memory : Type 0
Memory = ℕ → ℕ

-- `rep stosb`: n bytes
unfoldable pub stosb : Memory → (dst byte n : ℕ) → Memory
stosb mem dst byte zero = mem
stosb mem dst byte (suc n) = stosb (update mem dst byte) (dst + 1) byte n

-- the store of one 32-bit word, low byte first
abbrev pub store32 : Memory → (dst word : ℕ) → Memory
store32 mem dst word =
    update
      (update (update (update mem dst (word % 256)) (dst + 1) (word / 256 % 256)) (dst + 2)
        (word / 65536 % 256))
      (dst + 3) (word / 16777216 % 256)

-- the load of a 32-bit word
abbrev pub load32 : Memory → (src : ℕ) → ℕ
load32 mem src = mem src + 256 * mem (src + 1) + 65536 * mem (src + 2) + 16777216 * mem (src + 3)

-- `rep stosl`: n words
unfoldable pub stosl : Memory → (dst word n : ℕ) → Memory
stosl mem dst word zero = mem
stosl mem dst word (suc n) = stosl (store32 mem dst word) (dst + 4) word n

-- memset; `c & 0xFF` is `c % 256`, and the four shifted copies do not overlap
unfoldable pub memset : Memory → (dst c n : ℕ) → Memory
memset mem dst c n =
    if (dst % 4 == 0) && (n % 4 == 0)
    then (let b = c % 256 in stosl mem dst (b * 16777216 + b * 65536 + b * 256 + b) (n / 4))
    else stosb mem dst (c % 256) n

-- memcmp: the difference of the first bytes that differ, or 0
unfoldable pub memcmp : Memory → (s1 s2 n : ℕ) → ℤ
memcmp mem s1 s2 zero = pos 0
memcmp mem s1 s2 (suc n) =
    let rest = memcmp mem (s1 + 1) (s2 + 1) n in
    if mem s1 == mem s2 then rest else sub_ℕ (mem s1) (mem s2)

-- the two loops of memmove
unfoldable pub copy_down : Memory → (dst src n : ℕ) → Memory
copy_down mem dst src zero = mem
copy_down mem dst src (suc n) = copy_down (update mem (dst + n) (mem (src + n))) dst src n

unfoldable pub copy_up : Memory → (dst src n : ℕ) → Memory
copy_up mem dst src zero = mem
copy_up mem dst src (suc n) = copy_up (update mem dst (mem src)) (dst + 1) (src + 1) n

unfoldable pub memmove : Memory → (dst src n : ℕ) → Memory
memmove mem dst src n =
    if ltb src dst && ltb dst (src + n) then copy_down mem dst src n else copy_up mem dst src n

unfoldable pub strncmp : Memory → (p q n : ℕ) → ℤ
strncmp mem p q zero = pos 0
strncmp mem p q (suc n) =
    let rest = strncmp mem (p + 1) (q + 1) n in
    if not (mem p == 0) && (mem p == mem q) then rest else sub_ℕ (mem p) (mem q)

-- the loop of strncpy that fills up with zeros
unfoldable pub zero_fill : Memory → (s n : ℕ) → Memory
zero_fill mem s zero = mem
zero_fill mem s (suc n) = zero_fill (update mem s 0) (s + 1) n

unfoldable pub strncpy : Memory → (s t n : ℕ) → Memory
strncpy mem s t zero = mem
strncpy mem s t (suc n) =
    let mem' = update mem s (mem t) in
    let rest = strncpy mem' (s + 1) (t + 1) n in
    if mem t == 0 then zero_fill mem' (s + 1) n else rest

-- the loop of safestrcpy, for `n` more bytes at most, and the final `*s = 0`
unfoldable pub safe_loop : Memory → (s t n : ℕ) → Memory
safe_loop mem s t zero = update mem s 0
safe_loop mem s t (suc n) =
    let mem' = update mem s (mem t) in
    let rest = safe_loop mem' (s + 1) (t + 1) n in
    if mem t == 0 then update mem' (s + 1) 0 else rest

unfoldable pub safestrcpy : Memory → (s t n : ℕ) → Memory
unfolding safe_loop
safestrcpy mem s t zero = mem
safestrcpy mem s t (suc n) = safe_loop mem s t n

-- strlen, with fuel for the bytes that it may look at
unfoldable pub strlen_from : (fuel : ℕ) → Memory → (s n : ℕ) → Option ℕ
strlen_from zero mem s n = none
strlen_from (suc fuel) mem s n =
    let rest = strlen_from fuel mem s (n + 1) in if mem (s + n) == 0 then some n else rest
