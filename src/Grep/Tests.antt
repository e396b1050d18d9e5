-- ===== src/Grep/Tests.antt =====
-- The matcher at the pattern "a*b" and the text "xaab".
use xv.Common.{ℕ, ◌≡◌, ◌↔◌, arith, true, List, [], ◌∷◌}
use xv.Grep.{match_text}
use xv.Grep.Match.{Contains, match_iff}

abbrev pattern_ab : List ℕ
pattern_ab = 97 ∷ 42 ∷ 98 ∷ []

match_example :
    (match_text pattern_ab (120 ∷ 97 ∷ 97 ∷ 98 ∷ []) ≡ true)
    ↔ Contains pattern_ab (120 ∷ 97 ∷ 97 ∷ 98 ∷ [])
match_example = match_iff 97 (42 ∷ 98 ∷ []) (120 ∷ 97 ∷ 97 ∷ 98 ∷ []) (λ e. omega arith)
