-- ===== src/Sh/Accepts.antt =====
-- The parser of sh.c on whole lines: it ends, and gives well-formed commands.
use xv.Common.{ℕ, zero, suc, ◌+◌, ◌*◌, ◌≤◌, ◌<◌, ◌≡◌, ◌≢◌, arith, List, [], ◌∷◌, length}
use xv.Sh.Syntax.{Cmd}
use xv.Sh.Token.{gettoken, peek}
use xv.Sh.Result.{
  done, panics, out_of_fuel, Ends, value, error, Ends-if, Ends-bind, Ends-done, Ends-out_of_fuel,
}
use xv.Sh.Parse.{parseline, parsepipe, parseexec, parseblock, parsecmd}
use xv.Sh.Lexer.{length-peek, found_token}
use xv.Sh.Shape.{
  IsCommand, Parsed, wrap_all-IsCommand, parseredirs-Ends, parsesimple-Ends, parsebacks-Ends,
}

-- One induction on the fuel: a block takes its `(` before it asks for a line.
mutual
  unfolding parseline

  parseline-Ends :
      (f n : ℕ) (s : List ℕ) → 4 * length s + 3 < f → length s ≤ n → Ends (Parsed n) (parseline f s)
  parseline-Ends zero n s h le = absurd (omega arith)
  parseline-Ends (suc f) n s h le =
      Ends-bind (parsepipe-Ends f (length s) s (omega arith) (omega arith)) λ (cmd, s₁) (c, le₁).
        Ends-bind (parsebacks-Ends f (length s) cmd s₁ c (omega arith) (omega arith))
          λ (cmd', s₂) (c', le₂).
            Ends-if (peek (59 ∷ []) s₂).0
              (λ found.
                let less = found_token (59 ∷ []) s₂ found in
                Ends-bind
                  (parseline-Ends f n (gettoken (peek (59 ∷ []) s₂).1).1 (omega arith)
                    (omega arith))
                  λ (right, s₄) (r, le₄). value ((c', r), le₄))
              (λ _. value (c', omega (arith, length-peek (59 ∷ []) s₂)))

  parsepipe-Ends :
      (f n : ℕ) (s : List ℕ) → 4 * length s + 2 < f → length s ≤ n → Ends (Parsed n) (parsepipe f s)
  parsepipe-Ends zero n s h le = absurd (omega arith)
  parsepipe-Ends (suc f) n s h le =
      Ends-bind (parseexec-Ends f (length s) s (omega arith) (omega arith)) λ (cmd, s₁) (c, le₁).
        Ends-if (peek (124 ∷ []) s₁).0
          (λ found.
            let less = found_token (124 ∷ []) s₁ found in
            Ends-bind
              (parsepipe-Ends f n (gettoken (peek (124 ∷ []) s₁).1).1 (omega arith) (omega arith))
              λ (right, s₃) (r, le₃). value ((c, r), le₃))
          (λ _. value (c, omega (arith, length-peek (124 ∷ []) s₁)))

  parseexec-Ends :
      (f n : ℕ) (s : List ℕ) → 4 * length s + 1 < f → length s ≤ n → Ends (Parsed n) (parseexec f s)
  parseexec-Ends zero n s h le = absurd (omega arith)
  parseexec-Ends (suc f) n s h le =
      let shorter = length-peek (40 ∷ []) s in
      Ends-if (peek (40 ∷ []) s).0
        (λ _. parseblock-Ends f n (peek (40 ∷ []) s).1 (omega arith) (omega arith))
        (λ _. parsesimple-Ends f n (peek (40 ∷ []) s).1 (omega arith) (omega arith))

  parseblock-Ends :
      (f n : ℕ) (s : List ℕ) → 4 * length s < f → length s ≤ n → Ends (Parsed n) (parseblock f s)
  parseblock-Ends zero n s h le = absurd (omega arith)
  parseblock-Ends (suc f) n s h le =
      Ends-if (peek (40 ∷ []) s).0
        (λ open_found.
          let less = found_token (40 ∷ []) s open_found in
          Ends-bind
            (parseline-Ends f (length s) (gettoken (peek (40 ∷ []) s).1).1 (omega arith)
              (omega arith))
            λ (cmd, s₂) (c, le₂).
              Ends-if (peek (41 ∷ []) s₂).0
                (λ closed.
                  let less' = found_token (41 ∷ []) s₂ closed in
                  Ends-bind
                    (parseredirs-Ends f n (gettoken (peek (41 ∷ []) s₂).1).1 (omega arith)
                      (omega arith))
                    λ (rs, s₄) (files, le₄). value (wrap_all-IsCommand cmd rs c files, le₄))
                (λ _. error))
        (λ _. error)

parsecmd-Ends : (s : List ℕ) → Ends IsCommand (parsecmd s)
unfolding parsecmd
parsecmd-Ends s =
    Ends-bind (parseline-Ends (4 * length s + 4) (length s) s (omega arith) (omega arith))
      λ (cmd, s₁) (c, le). finish cmd (peek [] s₁).1 c
  where
    finish :
        (cmd : Cmd) (left : List ℕ)
        → IsCommand cmd
        → Ends IsCommand (elim left [ [] ↦ done cmd | c ∷ rest ↦ panics ])
    finish cmd [] c = value c
    finish cmd (d ∷ left) c = error

-- The parser ends on every line: the fuel that parsecmd is given is enough.
pub parsecmd_ends : (s : List ℕ) → parsecmd s ≢ out_of_fuel
parsecmd_ends s = Ends-out_of_fuel (parsecmd-Ends s)

-- In a command that parsecmd returns, every simple command has fewer than MAXARGS words, so that argv
-- has room for them and the null after them, and every word and file name has a byte and contains
-- neither blanks nor symbols.
pub parsecmd-IsCommand : (s : List ℕ) (cmd : Cmd) → parsecmd s ≡ done cmd → IsCommand cmd
parsecmd-IsCommand s cmd e = Ends-done (parsecmd-Ends s) e
