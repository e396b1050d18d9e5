-- ===== src/Ulib.antt =====
-- ulib.c: the string routines of user programs, on strings as the lists of their bytes before the
-- terminating zero.
pub mod Text
use xv.Common.{
  ℕ, zero, suc, ◌+◌, ◌-◌, ◌*◌, ◌%◌, ◌^◌, Bool, true, false, ◌&&◌, ◌||◌, Option, none, some, List,
  [], ◌∷◌, ◌==◌, ltb, leb, if◌then◌else◌,
}
use xv.Common.Int.{ℤ, pos, sub_ℕ}

-- strcmp; the byte after the end is 0
unfoldable pub strcmp : List ℕ → List ℕ → ℤ
strcmp [] [] = pos 0
strcmp [] (y ∷ ys) = sub_ℕ 0 y
strcmp (x ∷ xs) [] = sub_ℕ x 0
strcmp (x ∷ xs) (y ∷ ys) = let rest = strcmp xs ys in if x == y then rest else sub_ℕ x y

-- strchr from offset `i` on: the offset of the first `c`
unfoldable pub strchr_from : (i : ℕ) → List ℕ → (c : ℕ) → Option ℕ
strchr_from i [] c = none
strchr_from i (x ∷ xs) c = if x == c then some i else strchr_from (suc i) xs c

abbrev pub is_digit : ℕ → Bool
is_digit c = leb 48 c && leb c 57

-- the loop of atoi; `n` is an int as a 32-bit word, and wraps
unfoldable pub atoi_from : (n : ℕ) → List ℕ → ℕ
atoi_from n [] = n
atoi_from n (c ∷ cs) =
    let rest = atoi_from ((n * 10 + c - 48) % 2 ^ 32) cs in if is_digit c then rest else n

unfoldable pub atoi : List ℕ → ℕ
unfolding atoi_from
atoi s = atoi_from 0 s

abbrev pub is_eol : ℕ → Bool
is_eol c = (c == 10) || (c == 13)

-- the loop of gets, with room for `room` bytes more: what it stores, and the input that is left
unfoldable pub gets_loop : (room : ℕ) → List ℕ → List ℕ × List ℕ
gets_loop zero input = ([], input)
gets_loop (suc room) [] = ([], [])
gets_loop (suc room) (c ∷ input) =
    let (more, left) = gets_loop room input in
    if is_eol c then (c ∷ [], input) else (c ∷ more, left)

-- gets: i + 1 < max holds max - 1 times at most
unfoldable pub gets : (max : ℕ) → List ℕ → List ℕ × List ℕ
unfolding gets_loop
gets max input = gets_loop (max - 1) input
