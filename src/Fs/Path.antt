-- ===== src/Fs/Path.antt =====
-- skipelem of fs.c, on a path as the list of its bytes before the terminating zero.
use xv.Common.{ℕ, Bool, true, false, Option, none, some, List, [], ◌∷◌, take, ◌==◌, if◌then◌else◌}

abbrev pub dirsiz : ℕ
dirsiz = 14

abbrev pub slash : ℕ
slash = 47

-- while(*path == '/') path++
unfoldable pub skip_slashes : List ℕ → List ℕ
skip_slashes [] = []
skip_slashes (c ∷ path) = let rest = skip_slashes path in if c == slash then rest else c ∷ path

-- while(*path != '/' && *path != 0) path++: what is passed, and what is left
unfoldable pub element : List ℕ → List ℕ
element [] = []
element (c ∷ path) = let rest = element path in if c == slash then [] else c ∷ rest

unfoldable pub after_element : List ℕ → List ℕ
after_element [] = []
after_element (c ∷ path) = let rest = after_element path in if c == slash then c ∷ path else rest

-- The name, cut to DIRSIZ bytes, and the path after it; none where the source returns 0.
unfoldable pub skipelem : List ℕ → Option (List ℕ × List ℕ)
unfolding skip_slashes element after_element
skipelem path = elim (skip_slashes path) [
  | [] ↦ none
  | c ∷ rest ↦ some (take dirsiz (element (c ∷ rest)), skip_slashes (after_element (c ∷ rest)))
]

-- *path == '\0'
abbrev pub is_end {ℓ} : {A : Type ℓ} → List A → Bool
is_end [] = true
is_end (c ∷ path) = false
