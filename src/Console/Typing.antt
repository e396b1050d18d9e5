-- ===== src/Console/Typing.antt =====
-- A line that is typed is the line that is read.
use mathlib.Core.Path.{subst}
use mathlib.Core.List.{append_assoc}
use xv.Common.{
  ℕ, zero, suc, ◌+◌, ◌<◌, ◌≡◌, ◌≢◌, refl, ap, ap₂, ◌∙◌, arith, Bool, List, [], ◌∷◌, ◌++◌, length,
  length-append, Turn, returns,
}
use xv.Common.Int.{ℤ, pos}
use xv.Console.{input_buf, Console, consoleintr, consoleread}
use xv.Console.Buffer.{rev_onto}
use xv.Console.Editor.{Line, edit, edit_all, take_line, IsBytes, Holds}
use xv.Console.Interrupt.{consoleintr-Holds}
use xv.Console.Reader.{Agrees, both_return, consoleread-Agrees}

-- A code that is neither NUL nor one of the editor's keys nor the end of a line.
pub record IsPlain (c : ℕ) : Type 0 where
  pub small : c < 256
  pub not_nul : c ≢ 0
  pub not_eof : c ≢ 4
  pub not_rubout : (c ≢ 8) × (c ≢ 127)
  pub not_newline : (c ≢ 10) × (c ≢ 13)
  pub not_list : c ≢ 16
  pub not_kill : c ≢ 21

abbrev pub ArePlain : List ℕ → Type 0
ArePlain [] = input_buf ≡ input_buf
ArePlain (c ∷ codes) = IsPlain c × ArePlain codes

edit-plain :
    (c : ℕ) (l : Line)
    → IsPlain c
    → length l.ready + length l.edited + 1 < input_buf
    → edit c l ≡ record { ready = l.ready; edited = c ∷ l.edited }
edit-plain c l p h =
    ground
      (arith, p.small, p.not_nul, p.not_eof, p.not_rubout, p.not_newline, p.not_list, p.not_kill)

edit_all-plain :
    (codes q xs : List ℕ)
    → ArePlain codes
    → length q + length xs + length codes < input_buf
    → edit_all (codes ++ (13 ∷ [])) (record { ready = q; edited = xs })
      ≡ record { ready = q ++ rev_onto xs (codes ++ (10 ∷ [])); edited = [] }
edit_all-plain [] q xs p h = ground (arith, h)
edit_all-plain (c ∷ codes) q xs p h =
    ap (edit_all (codes ++ (13 ∷ [])))
      (edit-plain c (record { ready = q; edited = xs }) p.0 (omega arith))
    ∙ edit_all-plain codes q (c ∷ xs) p.1 (omega arith)

plain-IsBytes : (codes : List ℕ) → ArePlain codes → IsBytes (codes ++ (13 ∷ []))
plain-IsBytes [] p = (omega arith, refl)
plain-IsBytes (c ∷ codes) p = (p.0.small, plain-IsBytes codes p.1)

take_line-plain :
    (target n : ℕ) (killed : Bool) (codes rest got : List ℕ)
    → ArePlain codes
    → length got + n ≡ target
    → length codes < n
    → take_line target killed n (codes ++ (10 ∷ rest)) got
      ≡ returns (rest, (pos (length got + length codes + 1), got ++ (codes ++ (10 ∷ []))))
take_line-plain target zero killed codes rest got p e h = absurd (omega arith)
take_line-plain target (suc n) killed [] rest got p e h =
    ap (λ k. returns (rest, (pos k, got ++ (10 ∷ [])))) (omega arith)
take_line-plain target (suc n) killed (c ∷ codes) rest got p e h =
    let more = take_line target killed n (codes ++ (10 ∷ rest)) (got ++ (c ∷ [])) in
    let size = length-append got (c ∷ []) in
    let goes_on : take_line target killed (suc n) (c ∷ (codes ++ (10 ∷ rest))) got ≡ more =
      ground (arith, p.0.not_eof, p.0.not_newline) in
    goes_on
    ∙ take_line-plain target n killed codes rest (got ++ (c ∷ [])) p.1 (omega (arith, size))
        (omega arith)
    ∙ ap₂ (λ k bytes. returns (rest, (pos k, bytes))) (omega (arith, size))
        (append_assoc got (c ∷ []) (codes ++ (10 ∷ [])))

-- What the reader gets: the line with its newline, and the ring is empty again.
pub data Delivers (n : ℕ) (bytes : List ℕ)
    : Turn (Console × (ℕ × List ℕ)) (Console × (ℤ × List ℕ)) → Type 0 where
  delivers :
      (s : Console)
      → Holds s (record { ready = []; edited = [] })
      → Delivers n bytes (returns (s, (pos n, bytes)))

returned :
    (n : ℕ) (bytes : List ℕ) (t : Turn (Console × (ℕ × List ℕ)) (Console × (ℤ × List ℕ)))
    → Agrees [] t (returns ([], (pos n, bytes)))
    → Delivers n bytes t
returned n bytes t (both_return s ready result h) = delivers s h

-- A line of plain characters that is typed at an empty console and ended by a carriage return, 127
-- characters at most, is what consoleread with room for it returns: those bytes and a newline, in
-- order, counted right, and nothing is left in the console.
pub consoleread-consoleintr :
    (n : ℕ) (killed : Bool) (codes : List ℕ) (s : Console)
    → ArePlain codes
    → length codes < input_buf
    → length codes < n
    → Holds s (record { ready = []; edited = [] })
    → Delivers
        (length codes + 1)
        (codes ++ (10 ∷ []))
        (consoleread n killed (consoleintr (codes ++ (13 ∷ [])) s).0)
consoleread-consoleintr n killed codes s p short room h =
    let line = edit_all-plain codes [] [] p (omega arith) in
    let held = subst (Holds (consoleintr (codes ++ (13 ∷ [])) s).0) line (
      consoleintr-Holds (codes ++ (13 ∷ [])) s (record { ready = []; edited = [] })
        (plain-IsBytes codes p) h) in
    returned (length codes + 1) (codes ++ (10 ∷ []))
      (consoleread n killed (consoleintr (codes ++ (13 ∷ [])) s).0)
      (subst (Agrees [] (consoleread n killed (consoleintr (codes ++ (13 ∷ [])) s).0))
        (take_line-plain n n killed codes [] [] p (omega arith) room
          ∙ ap (λ k. returns ([], (pos k, codes ++ (10 ∷ [])))) (omega arith))
        (consoleread-Agrees n killed (consoleintr (codes ++ (13 ∷ [])) s).0
          (record { ready = codes ++ (10 ∷ []); edited = [] }) held))
