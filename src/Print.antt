-- ===== src/Print.antt =====
-- printf.c, and printint and cprintf of console.c, as the characters that they put out. The lock of
-- the console does not change them. `text` gives the bytes of the string at an address before its NUL.
pub mod Rounds
pub mod Digits
pub mod Agree
mod Tests
use xv.Common.{
  ℕ, zero, suc, ◌+◌, ◌-◌, ◌*◌, ◌/◌, ◌%◌, ◌^◌, Bool, true, false, ◌&&◌, ◌||◌, Option, none, some,
  List, [], ◌∷◌, ◌++◌, ◌==◌, leb, if◌then◌else◌, get_or, ℕ_discrete,
}

-- `digits` of console.c and of printf.c
abbrev pub lower : List ℕ
lower = 48 ∷ 49 ∷ 50 ∷ 51 ∷ 52 ∷ 53 ∷ 54 ∷ 55 ∷ 56 ∷ 57 ∷ 97 ∷ 98 ∷ 99 ∷ 100 ∷ 101 ∷ 102 ∷ []

abbrev pub upper : List ℕ
upper = 48 ∷ 49 ∷ 50 ∷ 51 ∷ 52 ∷ 53 ∷ 54 ∷ 55 ∷ 56 ∷ 57 ∷ 65 ∷ 66 ∷ 67 ∷ 68 ∷ 69 ∷ 70 ∷ []

-- the size of `buf`
abbrev pub buf_size : ℕ
buf_size = 16

-- The do loop of printint: what it stores in `buf`.
unfoldable pub digits_from : (digits : List ℕ) (base rounds x : ℕ) → List ℕ
digits_from digits base zero x = []
digits_from digits base (suc rounds) x =
    let rest = digits_from digits base rounds (x / base) in
    get_or digits (x % base) 0 ∷ (if x / base == 0 then [] else rest)

-- The loop that puts out `buf` from its end, before `out`.
unfoldable pub put_back : (buf out : List ℕ) → List ℕ
put_back [] out = out
put_back (c ∷ buf) out = put_back buf (c ∷ out)

-- sign && xx < 0, for the 32-bit pattern of an int
abbrev pub is_negative : (xx : ℕ) (sign : Bool) → Bool
is_negative xx sign = sign && leb (2 ^ 31) xx

abbrev pub magnitude : (xx : ℕ) (sign : Bool) → ℕ
magnitude xx sign = if is_negative xx sign then (2 ^ 32 - xx) % 2 ^ 32 else xx

-- `buf`, with its sign, when the loop that puts it out begins
unfoldable pub int_buf : (digits : List ℕ) (xx base : ℕ) (sign : Bool) → List ℕ
int_buf digits xx base sign =
    digits_from digits base buf_size (magnitude xx sign)
    ++ (if is_negative xx sign then 45 ∷ [] else [])

-- printint of console.c
unfoldable pub printint : (digits : List ℕ) (xx base : ℕ) (sign : Bool) → List ℕ
printint digits xx base sign = put_back (int_buf digits xx base sign) []

-- printint of printf.c
unfoldable pub user_printint : (xx base : ℕ) (sgn : Bool) → List ℕ
unfolding digits_from put_back
user_printint xx base sgn =
    let neg = sgn && leb (2 ^ 31) xx in
    let x = if neg then (2 ^ 32 - xx) % 2 ^ 32 else xx in
    put_back (digits_from upper base buf_size x ++ (if neg then 45 ∷ [] else [])) []

-- What a conversion character asks for.
pub data Conversion : Type 0 where
  decimal hex string char percent unknown : Conversion

-- the switch of cprintf
abbrev pub kernel_conversion : ℕ → Conversion
kernel_conversion c =
    if c == 100
    then decimal
    else (if c == 120 || c == 112
        then hex
        else (if c == 115 then string else (if c == 37 then percent else unknown)))

-- the tests of printf
abbrev pub user_conversion : ℕ → Conversion
user_conversion c =
    if c == 100
    then decimal
    else (if c == 120 || c == 112
        then hex
        else (if c == 115
            then string
            else (if c == 99 then char else (if c == 37 then percent else unknown))))

-- Characters before what comes next; none when the arguments run out.
abbrev pub put_before : List ℕ → Option (List ℕ) → Option (List ℕ)
put_before cs none = none
put_before cs (some out) = some (cs ++ out)

-- *argp++
abbrev pub with_arg : List ℕ → (ℕ → List ℕ → Option (List ℕ)) → Option (List ℕ)
with_arg [] f = none
with_arg (a ∷ args) f = f a args

-- the string at `s`, or "(null)"
abbrev pub string_at : (text : ℕ → List ℕ) → (s : ℕ) → List ℕ
string_at text s = if s == 0 then 40 ∷ 110 ∷ 117 ∷ 108 ∷ 108 ∷ 41 ∷ [] else text s

-- The conversion `c`, with what comes after it, for the printint of the caller.
unfoldable pub convert :
    (print : (xx base : ℕ) → Bool → List ℕ) (text : ℕ → List ℕ)
    → Conversion
    → (c : ℕ) (args : List ℕ) → (next : List ℕ → Option (List ℕ)) → Option (List ℕ)
convert print text decimal c args next =
    with_arg args (λ a args'. put_before (print a 10 true) (next args'))
convert print text hex c args next =
    with_arg args (λ a args'. put_before (print a 16 false) (next args'))
convert print text string c args next =
    with_arg args (λ a args'. put_before (string_at text a) (next args'))
convert print text char c args next =
    with_arg args (λ a args'. put_before (a % 256 ∷ []) (next args'))
convert print text percent c args next = put_before (37 ∷ []) (next args)
convert print text unknown c args next = put_before (37 ∷ c ∷ []) (next args)

-- cprintf from `fmt[i]` on; a NUL after a `%` ends the loop.
unfoldable pub cprintf : (text : ℕ → List ℕ) (fmt args : List ℕ) → Option (List ℕ)
unfolding convert printint
cprintf text [] args = some []
cprintf text (c ∷ []) args = if c == 37 then some [] else some (c ∷ [])
cprintf text (c ∷ d ∷ fmt) args = elim (ℕ_discrete c 37) [
  | yes is_percent ↦
      convert (printint lower) text (kernel_conversion d) d args (λ args'. cprintf text fmt args')
  | no other ↦ put_before (c ∷ []) (cprintf text (d ∷ fmt) args)
]

-- printf from `fmt[i]` on; `state` is whether the last character was a `%` of a conversion.
unfoldable pub printf_from :
    (text : ℕ → List ℕ) (state : Bool) (fmt args : List ℕ) → Option (List ℕ)
unfolding convert user_printint
printf_from text state [] args = some []
printf_from text false (c ∷ fmt) args = elim (ℕ_discrete c 37) [
  | yes is_percent ↦ printf_from text true fmt args
  | no other ↦ put_before (c ∷ []) (printf_from text false fmt args)
]
printf_from text true (c ∷ fmt) args =
    convert user_printint text (user_conversion c) c args
      (λ args'. printf_from text false fmt args')

unfoldable pub printf : (text : ℕ → List ℕ) (fmt args : List ℕ) → Option (List ℕ)
printf text fmt args = printf_from text false fmt args
