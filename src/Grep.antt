-- ===== src/Grep.antt =====
-- grep.c: the matcher for patterns with ^ . * $, on strings as the lists of their bytes before the
-- terminating zero.
pub mod Match
mod Tests
use xv.Common.{ℕ, Bool, true, false, ◌&&◌, ◌||◌, List, [], ◌∷◌, ◌==◌, if◌then◌else◌}

abbrev pub caret : ℕ
caret = 94

abbrev pub dollar : ℕ
dollar = 36

abbrev pub dot : ℕ
dot = 46

abbrev pub asterisk : ℕ
asterisk = 42

abbrev pub is_end : List ℕ → Bool
is_end [] = true
is_end (t ∷ ts) = false

-- the test of one pattern character
abbrev pub fits : ℕ → ℕ → Bool
fits c t = (c == dot) || (c == t)

-- matchstar; `here` is matchhere for the pattern after the star
unfoldable pub matchstar : ℕ → (here : List ℕ → Bool) → List ℕ → Bool
matchstar c here [] = here []
matchstar c here (t ∷ ts) =
    let later = matchstar c here ts in
    if here (t ∷ ts) then true else if fits c t then later else false

-- the last two cases of matchhere; `rest` is matchhere for the pattern after `c`
abbrev pub matchone : ℕ → (rest : List ℕ → Bool) → List ℕ → Bool
matchone c rest [] = false
matchone c rest (t ∷ ts) = if fits c t then rest ts else false

unfoldable pub matchhere : List ℕ → List ℕ → Bool
matchhere [] text = true
matchhere (c ∷ []) text = if c == dollar then is_end text else matchone c (matchhere []) text
matchhere (c ∷ d ∷ re) text =
    if d == asterisk then matchstar c (matchhere re) text else matchone c (matchhere (d ∷ re)) text

-- the loop of match
unfoldable pub match_from : List ℕ → List ℕ → Bool
match_from re [] = matchhere re []
match_from re (t ∷ ts) = if matchhere re (t ∷ ts) then true else match_from re ts

unfoldable pub match_text : List ℕ → List ℕ → Bool
match_text [] text = match_from [] text
match_text (c ∷ re) text = if c == caret then matchhere re text else match_from (c ∷ re) text
