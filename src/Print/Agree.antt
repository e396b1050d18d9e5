-- ===== src/Print/Agree.antt =====
-- cprintf of the kernel and printf of the programs put out the same.
use mathlib.Core.Path.{subst}
use xv.Common.{
  ℕ, zero, suc, ◌/◌, ◌%◌, ◌≡◌, ◌≢◌, refl, sym, ap, ap₂, ◌∙◌, arith, Bool, true, false, Option, some,
  List, [], ◌∷◌, ◌++◌, ◌==◌, if◌then◌else◌, drop, ℕ_discrete,
}
use xv.Print.{
  lower, upper, buf_size, digits_from, put_back, is_negative, magnitude, int_buf, printint,
  user_printint, Conversion, decimal, string, percent, unknown, kernel_conversion, user_conversion,
  put_before, with_arg, string_at, convert, cprintf, printf_from, printf,
}
use xv.Print.Digits.{digit_char}

-- No conversion of the format is `%x`, `%p` or `%c`. `state` is that of printf.
abbrev pub IsCommon : (state : Bool) → List ℕ → Type 0
IsCommon state [] = state ≡ state
IsCommon false (c ∷ fmt) = IsCommon (c == 37) fmt
IsCommon true (c ∷ fmt) = (c ≢ 120) × (c ≢ 112) × (c ≢ 99) × IsCommon false fmt

decimal_digits : (rounds x : ℕ) → digits_from lower 10 rounds x ≡ digits_from upper 10 rounds x
unfolding digits_from
decimal_digits zero x = refl
decimal_digits (suc rounds) x =
    ap₂ (λ d rest. d ∷ (if x / 10 == 0 then [] else rest))
      (digit_char (drop 10 lower) (x % 10) (omega arith)
        ∙ sym (digit_char (drop 10 upper) (x % 10) (omega arith)))
      (decimal_digits rounds (x / 10))

printint_decimal : (xx : ℕ) (sign : Bool) → printint lower xx 10 sign ≡ user_printint xx 10 sign
unfolding printint int_buf user_printint
printint_decimal xx sign =
    ap (λ ds. put_back (ds ++ (if is_negative xx sign then 45 ∷ [] else [])) [])
      (decimal_digits buf_size (magnitude xx sign))

data Shared : Conversion → Type 0 where
  shared_decimal : Shared decimal
  shared_string : Shared string
  shared_percent : Shared percent
  shared_unknown : Shared unknown

with_arg-ext :
    (args : List ℕ) (f g : ℕ → List ℕ → Option (List ℕ))
    → ((a : ℕ) (rest : List ℕ) → f a rest ≡ g a rest)
    → with_arg args f ≡ with_arg args g
with_arg-ext [] f g h = refl
with_arg-ext (a ∷ args) f g h = h a args

convert-same :
    (text : ℕ → List ℕ) (k : Conversion) (c : ℕ) (args : List ℕ) (f g : List ℕ → Option (List ℕ))
    → Shared k
    → ((rest : List ℕ) → f rest ≡ g rest)
    → convert (printint lower) text k c args f ≡ convert user_printint text k c args g
unfolding convert
convert-same text k c args f g shared_decimal h =
    with_arg-ext args (λ a rest. put_before (printint lower a 10 true) (f rest))
      (λ a rest. put_before (user_printint a 10 true) (g rest))
      (λ a rest. ap₂ put_before (printint_decimal a true) (h rest))
convert-same text k c args f g shared_string h =
    with_arg-ext args (λ a rest. put_before (string_at text a) (f rest))
      (λ a rest. put_before (string_at text a) (g rest))
      (λ a rest. ap (put_before (string_at text a)) (h rest))
convert-same text k c args f g shared_percent h = ap (put_before (37 ∷ [])) (h args)
convert-same text k c args f g shared_unknown h = ap (put_before (37 ∷ c ∷ [])) (h args)

Shared-if : (b : Bool) (j k : Conversion) → Shared j → Shared k → Shared (if b then j else k)
Shared-if true j k h h' = h
Shared-if false j k h h' = h'

-- the conversions that both have
abbrev common : ℕ → Conversion
common c =
    if c == 100
    then decimal
    else (if c == 115 then string else (if c == 37 then percent else unknown))

common-Shared : (c : ℕ) → Shared (common c)
common-Shared c =
    Shared-if (c == 100) decimal
      (if c == 115 then string else (if c == 37 then percent else unknown)) shared_decimal
      (Shared-if (c == 115) string (if c == 37 then percent else unknown) shared_string
        (Shared-if (c == 37) percent unknown shared_percent shared_unknown))

kernel_common : (c : ℕ) → c ≢ 120 → c ≢ 112 → kernel_conversion c ≡ common c
kernel_common c x p = ground (arith, x, p)

user_common : (c : ℕ) → c ≢ 120 → c ≢ 112 → c ≢ 99 → user_conversion c ≡ common c
user_common c x p k = ground (arith, x, p, k)

-- Two choices by one decision.
both {ℓ κ} :
    {P : Type ℓ} {A : Type κ} (q : Dec P) (a b c d : A)
    → (P → a ≡ c)
    → (¬ P → b ≡ d)
    → (elim q [ yes e ↦ a | no n ↦ b ]) ≡ (elim q [ yes e ↦ c | no n ↦ d ])
both (yes e) a b c d f g = f e
both (no n) a b c d f g = g n

single :
    (c : ℕ) (q : Dec (c ≡ 37))
    → (if c == 37 then some [] else some (c ∷ []))
      ≡ (elim q [ yes e ↦ some [] | no n ↦ some (c ∷ []) ])
single c (yes e) = ground (arith, e)
single c (no n) = ground (arith, n)

-- cprintf and printf put out the same characters, for the same strings and arguments, and run out
-- of arguments together, for every format without `%x`, `%p` and `%c`.
pub cprintf-printf :
    (text : ℕ → List ℕ) (fmt args : List ℕ)
    → IsCommon false fmt
    → cprintf text fmt args ≡ printf text fmt args
unfolding cprintf printf_from printf
cprintf-printf text [] args h = refl
cprintf-printf text (c ∷ []) args h = single c (ℕ_discrete c 37)
cprintf-printf text (c ∷ d ∷ fmt) args h =
    both (ℕ_discrete c 37)
      (convert (printint lower) text (kernel_conversion d) d args (λ args'. cprintf text fmt args'))
      (put_before (c ∷ []) (cprintf text (d ∷ fmt) args))
      (convert user_printint text (user_conversion d) d args
        (λ args'. printf_from text false fmt args'))
      (put_before (c ∷ []) (printf_from text false (d ∷ fmt) args))
      (λ e.
        let common' : IsCommon true (d ∷ fmt) =
          subst (λ state. IsCommon state (d ∷ fmt)) {y = true} (ground (arith, e)) h in
        let k = kernel_common d common'.0 common'.1 in
        let u = user_common d common'.0 common'.1 common'.2 in
        ap (λ j. convert (printint lower) text j d args (λ args'. cprintf text fmt args')) k
        ∙ convert-same text (common d) d args (λ args'. cprintf text fmt args')
            (λ args'. printf_from text false fmt args') (common-Shared d)
            (λ args'. cprintf-printf text fmt args' common'.3)
        ∙ ap (λ j. convert user_printint text j d args (λ args'. printf_from text false fmt args'))
            (sym u))
      (λ n. ap (put_before (c ∷ [])) (
        cprintf-printf text (d ∷ fmt) args
          (subst (λ state. IsCommon state (d ∷ fmt)) {y = false} (ground (arith, n)) h)))
