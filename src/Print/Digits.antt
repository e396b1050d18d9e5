-- ===== src/Print/Digits.antt =====
-- The digits of printint, as atoi reads them.
use mathlib.Core.Path.{subst}
use xv.Common.{
  ℕ, zero, suc, ◌+◌, ◌-◌, ◌*◌, ◌/◌, ◌%◌, ◌^◌, ◌≤◌, ◌<◌, ◌≡◌, refl, sym, ap, ◌∙◌, arith, Bool, true,
  false, List, [], ◌∷◌, ◌++◌, ◌==◌, leb, leb→le, if◌then◌else◌, get_or, drop, ℕ_discrete,
}
use xv.Ulib.{atoi_from, atoi}
use xv.Print.{lower, buf_size, digits_from, put_back, int_buf, printint}
use xv.Print.Rounds.{pow, more_left}

-- Both arrays of digits begin with the decimal ones.
pub digit_char :
    (others : List ℕ) (d : ℕ)
    → d < 10
    → get_or (48 ∷ 49 ∷ 50 ∷ 51 ∷ 52 ∷ 53 ∷ 54 ∷ 55 ∷ 56 ∷ 57 ∷ others) d 0 ≡ d + 48
digit_char others zero h = refl
digit_char others (suc zero) h = refl
digit_char others (suc (suc zero)) h = refl
digit_char others (suc (suc (suc zero))) h = refl
digit_char others (suc (suc (suc (suc zero)))) h = refl
digit_char others (suc (suc (suc (suc (suc zero))))) h = refl
digit_char others (suc (suc (suc (suc (suc (suc zero)))))) h = refl
digit_char others (suc (suc (suc (suc (suc (suc (suc zero))))))) h = refl
digit_char others (suc (suc (suc (suc (suc (suc (suc (suc zero)))))))) h = refl
digit_char others (suc (suc (suc (suc (suc (suc (suc (suc (suc zero))))))))) h = refl
digit_char others (suc (suc (suc (suc (suc (suc (suc (suc (suc (suc d)))))))))) h =
    absurd (omega arith)

-- atoi reads the digits of a number as the number, and goes on from there.
atoi_from-digits_from :
    (k x : ℕ) (rest : List ℕ)
    → 0 < k
    → x < pow 10 k
    → x < 2 ^ 32
    → atoi_from 0 (put_back (digits_from lower 10 k x) rest) ≡ atoi_from x rest
unfolding digits_from put_back atoi_from
atoi_from-digits_from zero x rest pos small word = absurd (omega arith)
atoi_from-digits_from (suc k) x rest pos small word =
    let d = get_or lower (x % 10) 0 in
    let char = digit_char (drop 10 lower) (x % 10) (omega arith) in
    let reads : (n : ℕ) → atoi_from n (d ∷ rest) ≡ atoi_from ((n * 10 + d - 48) % 2 ^ 32) rest =
      λ n. ground (arith, char) in
    elim (ℕ_discrete (x / 10) 0) [
      | yes z ↦
          let tail : (if x / 10 == 0 then [] else digits_from lower 10 k (x / 10)) ≡ [] =
            ground (arith, z) in
          ap (λ t. atoi_from 0 (put_back t (d ∷ rest))) tail
          ∙ reads 0
          ∙ ap (λ n. atoi_from n rest) (omega (arith, char, z, word))
      | no nz ↦
          let tail : (if x / 10 == 0 then [] else digits_from lower 10 k (x / 10))
              ≡ digits_from lower 10 k (x / 10) =
            ground (arith, nz) in
          let left : x / 10 < pow 10 k = omega arith in
          ap (λ t. atoi_from 0 (put_back t (d ∷ rest))) tail
          ∙ atoi_from-digits_from k (x / 10) (d ∷ rest) (more_left 10 k (x / 10) left nz) left
              (omega (arith, word))
          ∙ reads (x / 10)
          ∙ ap (λ n. atoi_from n rest) (omega (arith, char, word))
    ]

-- What `%d` puts out for the 32-bit pattern of an int.
pub data Reads (xx : ℕ) : List ℕ → Type 0 where
  positive : (s : List ℕ) → xx < 2 ^ 31 → atoi s ≡ xx → Reads xx s
  negative : (s : List ℕ) → 2 ^ 31 ≤ xx → atoi s ≡ 2 ^ 32 - xx → Reads xx (45 ∷ s)

put_back-append : (a b out : List ℕ) → put_back (a ++ b) out ≡ put_back b (put_back a out)
unfolding put_back
put_back-append [] b out = refl
put_back-append (c ∷ a) b out = put_back-append a b (c ∷ out)

atoi-digits : (x : ℕ) → x < 2 ^ 32 → atoi (put_back (digits_from lower 10 buf_size x) []) ≡ x
unfolding atoi atoi_from
atoi-digits x h = atoi_from-digits_from buf_size x [] (omega arith) (omega arith) h

printed_by :
    (xx : ℕ) (b : Bool)
    → xx < 2 ^ 32
    → leb (2 ^ 31) xx ≡ b
    → Reads xx (
        put_back
          (digits_from lower 10 buf_size (if b then (2 ^ 32 - xx) % 2 ^ 32 else xx)
            ++ (if b then 45 ∷ [] else []))
          [])
unfolding put_back
printed_by xx true h m =
    let x = (2 ^ 32 - xx) % 2 ^ 32 in
    let high : 2 ^ 31 ≤ xx = leb→le (2 ^ 31) xx m in
    subst (Reads xx) (sym (put_back-append (digits_from lower 10 buf_size x) (45 ∷ []) [])) (
      negative (put_back (digits_from lower 10 buf_size x) []) high
        (atoi-digits x (omega arith) ∙ omega arith))
printed_by xx false h m =
    let s = put_back (digits_from lower 10 buf_size xx) [] in
    subst (Reads xx) (sym (put_back-append (digits_from lower 10 buf_size xx) [] []))
      (positive s (ground (arith, m)) (atoi-digits xx h))

-- atoi reads what `%d` puts out for an int of 32 bits: the digits are those of the number, and of a
-- negative number a minus sign stands before those of its absolute value.
pub atoi-printint : (xx : ℕ) → xx < 2 ^ 32 → Reads xx (printint lower xx 10 true)
unfolding printint int_buf
atoi-printint xx h = printed_by xx (leb (2 ^ 31) xx) h refl
