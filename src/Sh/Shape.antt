-- ===== src/Sh/Shape.antt =====
-- The parser ends within its fuel, and what it builds is well formed.
use xv.Common.{
  ℕ, zero, suc, ◌+◌, ◌≤◌, ◌<◌, arith, Bool-cases, inl, inr, List, [], ◌∷◌, ◌++◌, ◌==◌, leb, length,
}
use xv.Sh.Syntax.{max_args, Cmd, exec, redir, pipe, list, back}
use xv.Sh.Token.{Token, end, symbol, append, word, gettoken, peek}
use xv.Sh.Result.{Result, Ends, value, error, Ends-if, Ends-bind}
use xv.Sh.Parse.{
  Redir, Args, add_arg, redirs_of, wrap_all, arrows, stops, expect_word, parseredirs, parseargs,
  parsesimple, parsebacks,
}
use xv.Sh.Lexer.{
  IsWord, length-peek, found_token, Next, no_token, some_symbol, some_append, some_word,
  gettoken-Next,
}

abbrev pub AllWords : List (List ℕ) → Type 0
AllWords [] = Unit
AllWords (w ∷ ws) = IsWord w × AllWords ws

-- Every simple command has fewer than MAXARGS words, so that its array has room for the final null,
-- and all words and file names are words.
abbrev pub IsCommand : Cmd → Type 0
IsCommand (exec argv) = AllWords argv × (length argv < max_args)
IsCommand (redir cmd file mode fd) = IsCommand cmd × IsWord file
IsCommand (pipe left right) = IsCommand left × IsCommand right
IsCommand (list left right) = IsCommand left × IsCommand right
IsCommand (back cmd) = IsCommand cmd

abbrev pub AllFiles : List Redir → Type 0
AllFiles [] = Unit
AllFiles (r ∷ rs) = IsWord r.0 × AllFiles rs

AllFiles-append : (rs rs' : List Redir) → AllFiles rs → AllFiles rs' → AllFiles (rs ++ rs')
AllFiles-append [] rs' a b = b
AllFiles-append (r ∷ rs) rs' a b = (a.0, AllFiles-append rs rs' a.1 b)

pub wrap_all-IsCommand :
    (cmd : Cmd) (rs : List Redir) → IsCommand cmd → AllFiles rs → IsCommand (wrap_all cmd rs)
wrap_all-IsCommand cmd [] c a = c
wrap_all-IsCommand cmd ((file, mode, fd) ∷ rs) c a =
    wrap_all-IsCommand (redir cmd file mode fd) rs (c, a.0) a.1

redirs_of-AllFiles : (tok : Token) (file : List ℕ) → IsWord file → AllFiles (redirs_of tok file)
redirs_of-AllFiles end file w = tt
redirs_of-AllFiles (symbol c) file w = elim (Bool-cases (c == 60)) [
  | inl input ↦ rw input (w, tt)
  | inr other ↦ elim (Bool-cases (c == 62)) [
    | inl output ↦ rw (other, output) (w, tt)
    | inr none ↦ rw (other, none) tt
  ]
]
redirs_of-AllFiles append file w = (w, tt)
redirs_of-AllFiles (word v) file w = tt

-- a command, and at most `n` bytes left
abbrev pub Parsed : ℕ → Cmd × List ℕ → Type 0
Parsed n r = IsCommand r.0 × (length r.1 ≤ n)

abbrev pub Redirected : ℕ → List Redir × List ℕ → Type 0
Redirected n r = AllFiles r.0 × (length r.1 ≤ n)

abbrev Words : ℕ → ℕ → Args → Type 0
Words argc n r = AllWords r.0 × (argc + length r.0 < max_args) × AllFiles r.1 × (length r.2 ≤ n)

expect_word-Ends :
    (s : List ℕ) → Ends (λ r. IsWord r.0 × (length r.1 < length s)) (expect_word (gettoken s))
expect_word-Ends s = go (gettoken-Next s)
  where
    go :
        {r : Token × List ℕ}
        → Next s r
        → Ends (λ r. IsWord r.0 × (length r.1 < length s)) (expect_word r)
    go no_token = error
    go some_symbol = error
    go some_append = error
    go (some_word w h) = value (w, h)

pub parseredirs-Ends :
    (f n : ℕ) (s : List ℕ) → length s < f → length s ≤ n → Ends (Redirected n) (parseredirs f s)
unfolding parseredirs
parseredirs-Ends zero n s h le = absurd (omega arith)
parseredirs-Ends (suc f) n s h le =
    let s₁ = (peek arrows s).1 in
    Ends-if (peek arrows s).0
      (λ found.
        let less = found_token arrows s found in
        Ends-bind (expect_word-Ends (gettoken s₁).1) λ (file, s₃) (w, shorter).
          Ends-bind (parseredirs-Ends f n s₃ (omega arith) (omega arith)) λ (rs, s₄) (files, rest).
            value (
              AllFiles-append (redirs_of (gettoken s₁).0 file) rs
                  (redirs_of-AllFiles (gettoken s₁).0 file w) files,
              rest,
            ))
      (λ _. value (tt, omega (arith, length-peek arrows s)))

-- One more word, where the redirections and the rest of the words end well on less text.
add_arg-Ends :
    {redirs : List ℕ → Result (List Redir × List ℕ)} {args : List ℕ → Result Args} (argc n : ℕ)
    (s : List ℕ) {r : Token × List ℕ}
    → argc < max_args
    → length s ≤ n
    → ((s' : List ℕ) → length s' < length s → Ends (Redirected (length s')) (redirs s'))
    → ((s' : List ℕ)
        → length s' < length s
        → argc + 1 < max_args
        → Ends (Words (argc + 1) n) (args s'))
    → Next s r
    → Ends (Words argc n) (add_arg redirs args argc r)
add_arg-Ends argc n s room le ends more no_token = value (tt, omega arith, tt, omega arith)
add_arg-Ends argc n s room le ends more some_symbol = error
add_arg-Ends argc n s room le ends more some_append = error
add_arg-Ends argc n s room le ends more (some_word {w} {rest} ok shorter) =
    Ends-if (leb max_args (argc + 1)) (λ _. error)
      λ fits.
        let few : argc + 1 < max_args = ground arith in
        Ends-bind (ends rest shorter) λ (rs, s₁) (files, le₁).
          Ends-bind (more s₁ (omega arith) few) λ (ws, rs', s₂) (words, short, files', le₂).
            value ((ok, words), omega arith, AllFiles-append rs rs' files files', le₂)

parseargs-Ends :
    (f argc n : ℕ) (s : List ℕ)
    → argc < max_args
    → length s < f
    → length s ≤ n
    → Ends (Words argc n) (parseargs f argc s)
unfolding parseargs
parseargs-Ends zero argc n s room h le = absurd (omega arith)
parseargs-Ends (suc f) argc n s room h le =
    let s₁ = (peek stops s).1 in
    let shorter : length s₁ ≤ length s = length-peek stops s in
    Ends-if (peek stops s).0 (λ _. value (tt, omega arith, tt, omega arith))
      λ _.
        add_arg-Ends argc n s₁ room (omega arith)
          (λ s' less. parseredirs-Ends f (length s') s' (omega arith) (omega arith))
          (λ s' less few. parseargs-Ends f (argc + 1) n s' few (omega arith) (omega arith))
          (gettoken-Next s₁)

pub parsesimple-Ends :
    (f n : ℕ) (s : List ℕ) → length s < f → length s ≤ n → Ends (Parsed n) (parsesimple f s)
unfolding parsesimple
parsesimple-Ends f n s h le =
    Ends-bind (parseredirs-Ends f (length s) s h (omega arith)) λ (rs, s₁) (files, le₁).
      Ends-bind (parseargs-Ends f 0 n s₁ (omega arith) (omega arith) (omega arith))
        λ (ws, rs', s₂) (words, few, files', le₂). value (
          wrap_all-IsCommand (exec ws) (rs ++ rs') (words, omega arith)
              (AllFiles-append rs rs' files files'),
          le₂,
        )

pub parsebacks-Ends :
    (f n : ℕ) (cmd : Cmd) (s : List ℕ)
    → IsCommand cmd
    → length s < f
    → length s ≤ n
    → Ends (Parsed n) (parsebacks f cmd s)
unfolding parsebacks
parsebacks-Ends zero n cmd s c h le = absurd (omega arith)
parsebacks-Ends (suc f) n cmd s c h le =
    Ends-if (peek (38 ∷ []) s).0
      (λ found.
        let less = found_token (38 ∷ []) s found in
        parsebacks-Ends f n (back cmd) (gettoken (peek (38 ∷ []) s).1).1 c (omega arith)
          (omega arith))
      (λ _. value (c, omega (arith, length-peek (38 ∷ []) s)))
