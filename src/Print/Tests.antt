-- ===== src/Print/Tests.antt =====
-- "%d: %s" and small numbers.

use xv.Common.{
  ℕ, ◌-◌, ◌^◌, ◌≤◌, ◌≡◌, refl, arith, true, false, some, List, [], ◌∷◌, length, ℕ_discrete,
}
use xv.Print.{
  lower, upper, buf_size, digits_from, magnitude, int_buf, put_back, printint, user_printint,
  convert, cprintf, printf_from, printf,
}
use xv.Print.Rounds.{is_hex, int_buf-fits}
use xv.Print.Digits.{Reads, atoi-printint}
use xv.Print.Agree.{cprintf-printf}

abbrev no_text : ℕ → List ℕ
no_text s = 111 ∷ 107 ∷ []

abbrev format : List ℕ
format = 37 ∷ 100 ∷ 58 ∷ 37 ∷ 115 ∷ []

int_buf-fits_example :
    (length (int_buf upper (2 ^ 32 - 1) 16 false) ≤ 11)
    × ((rounds : ℕ)
        → buf_size ≤ rounds
        → digits_from upper 16 rounds (magnitude (2 ^ 32 - 1) false)
          ≡ digits_from upper 16 buf_size (magnitude (2 ^ 32 - 1) false))
int_buf-fits_example = int_buf-fits upper 16 (2 ^ 32 - 1) false is_hex (ground arith)

atoi-printint_example : Reads (2 ^ 32 - 17) (printint lower (2 ^ 32 - 17) 10 true)
atoi-printint_example = atoi-printint (2 ^ 32 - 17) (ground arith)

cprintf-printf_example : cprintf no_text format (42 ∷ 5 ∷ []) ≡ printf no_text format (42 ∷ 5 ∷ [])
cprintf-printf_example =
    cprintf-printf no_text format (42 ∷ 5 ∷ [])
      (omega arith, omega arith, omega arith, (omega arith, omega arith, omega arith, refl))

minus_seventeen : printint lower (2 ^ 32 - 17) 10 true ≡ 45 ∷ 49 ∷ 55 ∷ []
unfolding printint int_buf digits_from put_back
minus_seventeen = refl

printed : printf no_text format (42 ∷ 5 ∷ []) ≡ some (52 ∷ 50 ∷ 58 ∷ 111 ∷ 107 ∷ [])
unfolding printf printf_from convert user_printint digits_from put_back ℕ_discrete
printed = refl
