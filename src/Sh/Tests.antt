-- ===== src/Sh/Tests.antt =====
-- The parser at concrete lines.
use xv.Common.{ℕ, ◌≡◌, ◌≢◌, refl, List, [], ◌∷◌}
use xv.Sh.Syntax.{Cmd, exec, redir, pipe, list, back}
use xv.Sh.Token.{is_whitespace, is_symbol, skip_space, take_word, scan, gettoken, peek}
use xv.Sh.Result.{done, out_of_fuel}
use xv.Sh.Shape.{IsCommand}
use xv.Sh.Accepts.{parsecmd_ends, parsecmd-IsCommand}
use xv.Sh.Parse.{parseredirs, parseargs, parsesimple, parsebacks, parseline, parsecmd}

-- "a b|(c;d&)>e"
abbrev line : List ℕ
line = 97 ∷ 32 ∷ 98 ∷ 124 ∷ 40 ∷ 99 ∷ 59 ∷ 100 ∷ 38 ∷ 41 ∷ 62 ∷ 101 ∷ []

abbrev tree : Cmd
tree =
    pipe (exec ((97 ∷ []) ∷ (98 ∷ []) ∷ []))
      (redir (list (exec ((99 ∷ []) ∷ [])) (back (exec ((100 ∷ []) ∷ [])))) (101 ∷ []) 0x201 1)

line_parses : parsecmd line ≡ done tree
unfolding parsecmd parseline parseredirs parseargs parsesimple parsebacks peek gettoken skip_space
    scan take_word is_whitespace is_symbol
line_parses = refl

parsecmd_ends_example : parsecmd line ≢ out_of_fuel
parsecmd_ends_example = parsecmd_ends line

parsecmd_example : IsCommand tree
parsecmd_example = parsecmd-IsCommand line tree line_parses
