-- ===== src/Ulib/Text.antt =====
-- What the string routines of user programs compute.
use xv.Common.{
  ℕ, zero, suc, ◌+◌, ◌-◌, ◌*◌, ◌%◌, ◌^◌, ◌≤◌, ◌<◌, ◌≡◌, ◌≢◌, ◌↔◌, refl, sym, ap, ◌∙◌, arith,
  ℕ_discrete, true, false, Bool-cases, inl, inr, List, [], ◌∷◌, ◌++◌, length,
}
use xv.Common.Int.{pos, sub_ℕ}
use xv.Ulib.{strcmp, is_digit, atoi_from, atoi, is_eol, gets_loop, gets}

-- no byte of a string is 0
abbrev pub IsString : List ℕ → Type 0
IsString [] = Unit
IsString (x ∷ xs) = (x ≢ 0) × IsString xs

differs : (a b : ℕ) → a ≢ b → sub_ℕ a b ≢ pos 0
differs a b h e = ground arith

-- strcmp of two strings is 0 exactly if they are the same.
pub strcmp_iff : (xs ys : List ℕ) → IsString xs → IsString ys → (strcmp xs ys ≡ pos 0) ↔ (xs ≡ ys)
unfolding strcmp
strcmp_iff [] [] sx sy = (λ e. refl, λ e. refl)
strcmp_iff [] (y ∷ ys) sx sy = (λ e. absurd (differs 0 y (λ z. sy.0 (sym z)) e), λ e. absurd (cc e))
strcmp_iff (x ∷ xs) [] sx sy = (λ e. absurd (differs x 0 sx.0 e), λ e. absurd (cc e))
strcmp_iff (x ∷ xs) (y ∷ ys) sx sy =
    let ih = strcmp_iff xs ys sx.1 sy.1 in
    elim (ℕ_discrete x y) [
      | yes same ↦ (λ e. ground (arith, ih.0), λ e. ground (arith, ih.1))
      | no other ↦ (λ e. ground (arith, differs x y other), λ e. ground arith)
    ]

-- every byte is a digit
abbrev pub AllDigits : List ℕ → Type 0
AllDigits [] = Unit
AllDigits (c ∷ cs) = (is_digit c ≡ true) × AllDigits cs

atoi_from_snoc :
    (ds : List ℕ) (n d : ℕ) (rest : List ℕ)
    → AllDigits ds
    → d < 10
    → atoi_from n (ds ++ ((d + 48) ∷ rest)) ≡ atoi_from ((atoi_from n ds * 10 + d) % 2 ^ 32) rest
unfolding atoi_from
atoi_from_snoc [] n d rest all small =
    let digit : is_digit (d + 48) ≡ true = ground arith in
    rw digit (ap (λ m. atoi_from m rest) (omega arith))
atoi_from_snoc (c ∷ ds) n d rest all small =
    let ih = atoi_from_snoc ds ((n * 10 + c - 48) % 2 ^ 32) d rest all.1 small in rw all.0 ih

-- One more digit makes the number that atoi reads ten times as large, and adds the digit; what comes
-- after a byte that is no digit does not count.
pub atoi_digit :
    (ds : List ℕ) (d c : ℕ) (rest : List ℕ)
    → AllDigits ds
    → d < 10
    → is_digit c ≡ false
    → atoi (ds ++ ((d + 48) ∷ c ∷ rest)) ≡ (atoi ds * 10 + d) % 2 ^ 32
unfolding atoi atoi_from
atoi_digit ds d c rest all small stop = atoi_from_snoc ds 0 d (c ∷ rest) all small ∙ rw stop refl

-- no byte but the last ends a line
abbrev pub OneLine : List ℕ → Type 0
OneLine [] = Unit
OneLine (c ∷ []) = Unit
OneLine (c ∷ d ∷ cs) = (is_eol c ≡ false) × OneLine (d ∷ cs)

OneLine-cons : (c : ℕ) (cs : List ℕ) → is_eol c ≡ false → OneLine cs → OneLine (c ∷ cs)
OneLine-cons c [] e o = tt
OneLine-cons c (d ∷ cs) e o = (e, o)

gets_loop_lem :
    (room : ℕ) (input : List ℕ)
    → let r = gets_loop room input in (input ≡ r.0 ++ r.1) × (length r.0 ≤ room) × OneLine r.0
unfolding gets_loop
gets_loop_lem zero input = (refl, omega arith, tt)
gets_loop_lem (suc room) [] = (refl, omega arith, tt)
gets_loop_lem (suc room) (c ∷ input) =
    let (whole, short, line) = gets_loop_lem room input in
    elim (Bool-cases (is_eol c)) [
      | inl end ↦ rw end (refl, omega arith, tt)
      | inr more ↦ rw more (ap (λ l. c ∷ l) whole, omega arith, OneLine-cons c _ more line)
    ]

-- gets into a buffer of max > 0 bytes splits the input: what it stores comes first, leaves a byte of
-- the buffer for the terminating zero, and has no end of line before its last byte.
pub gets_lem :
    (max : ℕ) (input : List ℕ)
    → 0 < max
    → let r = gets max input in (input ≡ r.0 ++ r.1) × (length r.0 + 1 ≤ max) × OneLine r.0
unfolding gets
gets_lem max input h =
    let (whole, short, line) = gets_loop_lem (max - 1) input in (whole, omega arith, line)
