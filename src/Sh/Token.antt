-- ===== src/Sh/Token.antt =====
-- gettoken and peek of sh.c.
use xv.Common.{ℕ, Bool, false, ◌&&◌, ◌||◌, not, List, [], ◌∷◌, ◌==◌, if◌then◌else◌}

-- strchr(whitespace, c), for " \t\r\n\v"
unfoldable pub is_whitespace : ℕ → Bool
is_whitespace c = (c == 32) || (c == 9) || (c == 13) || (c == 10) || (c == 11)

-- strchr(symbols, c), for "<|>&;()"
unfoldable pub is_symbol : ℕ → Bool
is_symbol c =
    (c == 60) || (c == 124) || (c == 62) || (c == 38) || (c == 59) || (c == 40) || (c == 41)

-- a byte of a word
abbrev pub is_plain : ℕ → Bool
is_plain c = not (is_whitespace c) && not (is_symbol c)

-- while(s < es && strchr(whitespace, *s)) s++
unfoldable pub skip_space : List ℕ → List ℕ
skip_space [] = []
skip_space (c ∷ s) = if is_whitespace c then skip_space s else c ∷ s

-- the loop over a word: the word and what follows it
unfoldable pub take_word : List ℕ → List ℕ × List ℕ
take_word [] = ([], [])
take_word (c ∷ s) =
    let (word, rest) = take_word s in if is_plain c then (c ∷ word, rest) else ([], c ∷ s)

-- What gettoken returns: 0, the symbol, '+' for >>, or 'a' with the word from *q to *eq.
pub data Token : Type 0 where
  end : Token
  symbol : ℕ → Token
  append : Token
  word : List ℕ → Token

-- the symbol `>`, when `s` follows it
abbrev pub greater : List ℕ → Token × List ℕ
greater [] = (symbol 62, [])
greater (d ∷ s) = if d == 62 then (append, s) else (symbol 62, d ∷ s)

-- the switch of gettoken
unfoldable pub scan : List ℕ → Token × List ℕ
unfolding take_word
scan [] = (end, [])
scan (c ∷ s) =
    if c == 62
    then greater s
    else if is_symbol c
    then (symbol c, s)
    else (let (w, rest) = take_word (c ∷ s) in (word w, rest))

unfoldable pub gettoken : List ℕ → Token × List ℕ
unfolding skip_space scan
gettoken s = let (tok, rest) = scan (skip_space s) in (tok, skip_space rest)

-- strchr(toks, c)
abbrev pub among : List ℕ → ℕ → Bool
among [] c = false
among (t ∷ toks) c = (t == c) || among toks c

-- peek, after the spaces
abbrev pub starts : List ℕ → List ℕ → Bool
starts toks [] = false
starts toks (c ∷ s) = among toks c

unfoldable pub peek : List ℕ → List ℕ → Bool × List ℕ
unfolding skip_space
peek toks s = let s' = skip_space s in (starts toks s', s')
