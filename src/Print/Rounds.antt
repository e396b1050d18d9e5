-- ===== src/Print/Rounds.antt =====
-- The loop of printint: its characters fit `buf`, and its 16 rounds are enough.

use xv.Common.{
  ℕ, zero, suc, ◌*◌, ◌/◌, ◌%◌, ◌^◌, ◌≤◌, ◌<◌, ◌≡◌, ◌≢◌, ap, arith, Bool, true, false, List, [], ◌∷◌,
  ◌==◌, if◌then◌else◌, get_or, length, length-append, ℕ_discrete,
}
use xv.Print.{buf_size, digits_from, is_negative, magnitude, int_buf}

-- base ^ k, for a base that `arith` reads when it is a literal
abbrev pub pow : (base k : ℕ) → ℕ
pow base zero = 1
pow base (suc k) = base * pow base k

-- Division by the base takes a number below a power to one below the power before.
abbrev pub Divides : ℕ → Type 0
Divides base = (x p : ℕ) → x < base * p → x / base < p

-- The tail that printint leaves out when nothing is left of the number.
length-tail :
    (t k : ℕ) (a : List ℕ) → (t ≢ 0 → length a ≤ k) → length (if t == 0 then [] else a) ≤ k
length-tail t k a h = elim (ℕ_discrete t 0) [
  | yes z ↦ ground (arith, z)
  | no nz ↦ ground (arith, nz, h nz)
]

same_tail :
    (t : ℕ) (a b : List ℕ)
    → (t ≢ 0 → a ≡ b)
    → (if t == 0 then [] else a) ≡ (if t == 0 then [] else b)
same_tail t a b h = elim (ℕ_discrete t 0) [
  | yes z ↦ ground (arith, z)
  | no nz ↦ ap (λ c. if t == 0 then [] else c) (h nz)
]

pub more_left : (base k t : ℕ) → t < pow base k → t ≢ 0 → 0 < k
more_left base zero t lt nz = absurd (omega (arith, nz))
more_left base (suc k) t lt nz = omega arith

pub length-digits_from :
    (digits : List ℕ) (base : ℕ)
    → Divides base
    → (k rounds x : ℕ) → 0 < k
    → x < pow base k
    → length (digits_from digits base rounds x) ≤ k
unfolding digits_from
length-digits_from digits base step k zero x pos small = omega arith
length-digits_from digits base step zero (suc r) x pos small = absurd (omega arith)
length-digits_from digits base step (suc k) (suc r) x pos small =
    let left = step x (pow base k) small in
    let tail = length-tail (x / base) k (digits_from digits base r (x / base)) (λ nz.
      length-digits_from digits base step k r (x / base) (more_left base k (x / base) left nz)
        left) in
    omega (arith, tail)

-- All numbers of rounds that are enough are as good.
pub digits_from_enough :
    (digits : List ℕ) (base : ℕ)
    → Divides base
    → (k r r' x : ℕ) → 0 < k
    → k ≤ r
    → k ≤ r'
    → x < pow base k
    → digits_from digits base r x ≡ digits_from digits base r' x
unfolding digits_from
digits_from_enough digits base step k zero r' x pos le le' small = absurd (omega arith)
digits_from_enough digits base step k (suc r) zero x pos le le' small = absurd (omega arith)
digits_from_enough digits base step zero (suc r) (suc r') x pos le le' small = absurd (omega arith)
digits_from_enough digits base step (suc k) (suc r) (suc r') x pos le le' small =
    let left = step x (pow base k) small in
    ap (λ t. get_or digits (x % base) 0 ∷ t)
      (same_tail (x / base) (digits_from digits base r (x / base))
        (digits_from digits base r' (x / base))
        (λ nz.
          digits_from_enough digits base step k r r' (x / base)
            (more_left base k (x / base) left nz) (omega arith) (omega arith) left))

-- The two bases that the programs print in.
pub data IsBase : ℕ → Type 0 where
  is_decimal : IsBase 10
  is_hex : IsBase 16

length-sign : (b : Bool) → length {A = ℕ} (if b then 45 ∷ [] else []) ≤ 1
length-sign true = omega arith
length-sign false = omega arith

fits_by :
    (digits : List ℕ) (base : ℕ)
    → Divides base
    → (xx : ℕ) (sign : Bool) → magnitude xx sign < pow base 10
    → (length (int_buf digits xx base sign) ≤ 11)
      × ((rounds : ℕ)
          → buf_size ≤ rounds
          → digits_from digits base rounds (magnitude xx sign)
            ≡ digits_from digits base buf_size (magnitude xx sign))
unfolding int_buf
fits_by digits base step xx sign small =
    let x = magnitude xx sign in
    let ds = length-digits_from digits base step 10 buf_size x (omega arith) small in
    (
      omega (
        arith,
        ds,
        length-append (digits_from digits base buf_size x)
            (if is_negative xx sign then 45 ∷ [] else []),
        length-sign (is_negative xx sign),
      ),
      λ rounds more.
          digits_from_enough digits base step 10 rounds buf_size x (omega arith) (omega arith)
            (omega arith) small,
    )

-- printint of a 32-bit word, in base 10 and in base 16, never stores more than 11 characters in its
-- 16, and 16 rounds of its loop give what any larger number of rounds does.
pub int_buf-fits :
    (digits : List ℕ) (base xx : ℕ) (sign : Bool)
    → IsBase base
    → xx < 2 ^ 32
    → (length (int_buf digits xx base sign) ≤ 11)
      × ((rounds : ℕ)
          → buf_size ≤ rounds
          → digits_from digits base rounds (magnitude xx sign)
            ≡ digits_from digits base buf_size (magnitude xx sign))
int_buf-fits digits base xx sign is_decimal h =
    fits_by digits 10 (λ x p lt. omega arith) xx sign (ground arith)
int_buf-fits digits base xx sign is_hex h =
    fits_by digits 16 (λ x p lt. omega arith) xx sign (ground arith)
