-- ===== src/Sh/Lexer.antt =====
-- What a token takes from the text.
use xv.Common.{
  ℕ, ◌≤◌, ◌<◌, ◌≡◌, ◌≢◌, refl, sym, ap, ◌∙◌, arith, true, false, Bool-cases, inl, inr, List, [],
  ◌∷◌, ◌==◌, ==_iff, length,
}
use xv.Sh.Token.{
  is_whitespace, is_symbol, is_plain, skip_space, take_word, Token, end, symbol, append, word,
  greater, scan, gettoken, peek,
}

abbrev pub AllPlain : List ℕ → Type 0
AllPlain [] = Unit
AllPlain (c ∷ w) = (is_plain c ≡ true) × AllPlain w

-- A word has a byte, and no blank or symbol in it.
abbrev pub IsWord : List ℕ → Type 0
IsWord w = (w ≢ []) × AllPlain w

pub length-skip_space : (s : List ℕ) → length (skip_space s) ≤ length s
unfolding skip_space
length-skip_space [] = omega arith
length-skip_space (c ∷ s) = let ih = length-skip_space s in ground (arith, ih)

-- no blank comes first
abbrev pub Trimmed : List ℕ → Type 0
Trimmed [] = Unit
Trimmed (c ∷ s) = is_whitespace c ≡ false

skip_space-Trimmed : (s : List ℕ) → Trimmed (skip_space s)
unfolding skip_space
skip_space-Trimmed [] = tt
skip_space-Trimmed (c ∷ s) = elim (Bool-cases (is_whitespace c)) [
  | inl blank ↦ rw blank (skip_space-Trimmed s)
  | inr other ↦ rw other other
]

take_word_lem : (s : List ℕ) → AllPlain (take_word s).0 × (length (take_word s).1 ≤ length s)
unfolding take_word
take_word_lem [] = (tt, omega arith)
take_word_lem (c ∷ s) =
    let (plain, shorter) = take_word_lem s in
    elim (Bool-cases (is_plain c)) [
      | inl p ↦ rw p ((p, plain), omega arith)
      | inr q ↦ rw q (tt, omega arith)
    ]

-- A token, and less text left than before; at the end of the text there is none.
pub data Lexed (s : List ℕ) : Token × List ℕ → Type 0 where
  at_end : s ≡ [] → Lexed s (end, [])
  a_symbol : {c : ℕ} {rest : List ℕ} → length rest < length s → Lexed s (symbol c, rest)
  an_append : {rest : List ℕ} → length rest < length s → Lexed s (append, rest)
  a_word : {w rest : List ℕ} → IsWord w → length rest < length s → Lexed s (word w, rest)

greater-Lexed : (s : List ℕ) → Lexed (62 ∷ s) (greater s)
greater-Lexed [] = a_symbol (omega arith)
greater-Lexed (d ∷ s) = elim (Bool-cases (d == 62)) [
  | inl two ↦ rw two (an_append (omega arith))
  | inr one ↦ rw one (a_symbol (omega arith))
]

scan-Lexed : (s : List ℕ) → Trimmed s → Lexed s (scan s)
unfolding scan
scan-Lexed [] t = at_end refl
scan-Lexed (c ∷ s) t = elim (Bool-cases (c == 62)) [
  | inl arrow ↦ rw arrow (arrow_case ((==_iff c 62).0 arrow))
  | inr other ↦ elim (Bool-cases (is_symbol c)) [
    | inl one ↦ rw (other, one) (a_symbol (omega arith))
    | inr letter ↦
        let plain : is_plain c ≡ true = rw (t, letter) refl in
        let (word_plain, shorter) = take_word_lem s in
        rw (other, letter, t) (a_word ((λ e. cc e), (plain, word_plain)) (omega arith))
  ]
]
  where
    arrow_case : c ≡ 62 → Lexed (c ∷ s) (greater s)
    arrow_case e = rw e (greater-Lexed s)

Trimmed-skip_space : (s : List ℕ) → Trimmed s → skip_space s ≡ s
unfolding skip_space
Trimmed-skip_space [] t = refl
Trimmed-skip_space (c ∷ s) t = rw t refl

gettoken-Lexed : (s : List ℕ) → Lexed (skip_space s) (gettoken s)
unfolding gettoken
gettoken-Lexed s = go (scan-Lexed (skip_space s) (skip_space-Trimmed s))
  where
    go : {r : Token × List ℕ} → Lexed (skip_space s) r → Lexed (skip_space s) (r.0, skip_space r.1)
    go (at_end e) = rw (Trimmed-skip_space [] tt) (at_end e)
    go (a_symbol {c} {rest} h) = a_symbol (omega (arith, length-skip_space rest))
    go (an_append {rest} h) = an_append (omega (arith, length-skip_space rest))
    go (a_word {w} {rest} ok h) = a_word ok (omega (arith, length-skip_space rest))

-- peek only drops blanks.
pub length-peek : (toks s : List ℕ) → length (peek toks s).1 ≤ length s
unfolding peek
length-peek toks s = length-skip_space s

-- Where peek finds one of `toks`, a token follows, and gettoken takes it.
pub found_token :
    (toks s : List ℕ) → (peek toks s).0 ≡ true → length (gettoken (peek toks s).1).1 < length s
unfolding peek
found_token toks s e =
    go (Trimmed-skip_space (skip_space s) (skip_space-Trimmed s)) (gettoken-Lexed (skip_space s))
  where
    here : skip_space s ≢ []
    here none_left = cc (rw none_left at e)

    go : {t : List ℕ} {r : Token × List ℕ} → t ≡ skip_space s → Lexed t r → length r.1 < length s
    go same (at_end e') = absurd (here (sym same ∙ e'))
    go same (a_symbol h) = omega (arith, length-skip_space s, ap length same)
    go same (an_append h) = omega (arith, length-skip_space s, ap length same)
    go same (a_word ok h) = omega (arith, length-skip_space s, ap length same)

-- What gettoken gives after peek: a token and less text, or the end.
pub data Next (s : List ℕ) : Token × List ℕ → Type 0 where
  no_token : Next s (end, [])
  some_symbol : {c : ℕ} {rest : List ℕ} → Next s (symbol c, rest)
  some_append : {rest : List ℕ} → Next s (append, rest)
  some_word : {w rest : List ℕ} → IsWord w → length rest < length s → Next s (word w, rest)

pub gettoken-Next : (s : List ℕ) → Next s (gettoken s)
gettoken-Next s = go (gettoken-Lexed s)
  where
    go : {r : Token × List ℕ} → Lexed (skip_space s) r → Next s r
    go (at_end e) = no_token
    go (a_symbol h) = some_symbol
    go (an_append h) = some_append
    go (a_word ok h) = some_word ok (omega (arith, length-skip_space s))
