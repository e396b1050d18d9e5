-- ===== src/Fs/Elements.antt =====
-- The names that skipelem cuts from a path are the words between its slashes.
use mathlib.Core.Path.{subst}
use xv.Common.{
  ℕ, suc, ◌≤◌, ◌≡◌, refl, sym, ap, ap₂, ◌∙◌, arith, inl, inr, true, false, Bool-cases, none, some,
  List, [], ◌∷◌, map, take, length, ◌==◌, if◌then◌else◌,
}
use xv.Fs.Path.{dirsiz, slash, skip_slashes, element, after_element, is_end, skipelem}

-- Byte `c`, no slash, before a path with the words `ws`: a word of its own where the path is empty or
-- begins with a slash, and else the first byte of the first word.
unfoldable pub join : ℕ → (next : List ℕ) → List (List ℕ) → List (List ℕ)
join c [] ws = (c ∷ []) ∷ ws
join c (d ∷ next) [] = (c ∷ []) ∷ []
join c (d ∷ next) (w ∷ ws) = if d == slash then (c ∷ []) ∷ w ∷ ws else (c ∷ w) ∷ ws

-- The longest runs of bytes that are no slashes.
unfoldable pub words : List ℕ → List (List ℕ)
unfolding join
words [] = []
words (c ∷ path) = let rest = words path in if c == slash then rest else join c path rest

words-skip_slashes : (path : List ℕ) → words (skip_slashes path) ≡ words path
unfolding words skip_slashes
words-skip_slashes [] = refl
words-skip_slashes (c ∷ path) = elim (Bool-cases (c == slash)) [
  | inl s ↦ rw s (words-skip_slashes path)
  | inr n ↦ rw n (rw n refl)
]

join-slash :
    (c d : ℕ) (path : List ℕ) (ws : List (List ℕ))
    → (d == slash) ≡ true
    → join c (d ∷ path) ws ≡ (c ∷ []) ∷ ws
unfolding join
join-slash c d path [] s = refl
join-slash c d path (w ∷ ws) s = rw s refl

join_more :
    (c d : ℕ) (path w : List ℕ) (ws : List (List ℕ))
    → (d == slash) ≡ false
    → join c (d ∷ path) (w ∷ ws) ≡ (c ∷ w) ∷ ws
unfolding join
join_more c d path w ws m = rw m refl

module _ (c : ℕ) (path : List ℕ) (n : (c == slash) ≡ false) where
  words_more : words (c ∷ path) ≡ join c path (words path)
  unfolding words
  words_more = rw n refl

  element_more : element (c ∷ path) ≡ c ∷ element path
  unfolding element
  element_more = rw n refl

  after_element_more : after_element (c ∷ path) ≡ after_element path
  unfolding after_element
  after_element_more = rw n refl

module _ (c : ℕ) (path : List ℕ) (s : (c == slash) ≡ true) where
  element_none : element (c ∷ path) ≡ []
  unfolding element
  element_none = rw s refl

  after_element_none : after_element (c ∷ path) ≡ c ∷ path
  unfolding after_element
  after_element_none = rw s refl

  words_none : words (c ∷ path) ≡ words path
  unfolding words
  words_none = rw s refl

-- A path that does not begin with a slash begins with its first word.
words-element :
    (c : ℕ) (path : List ℕ)
    → (c == slash) ≡ false
    → words (c ∷ path) ≡ element (c ∷ path) ∷ words (after_element (c ∷ path))
unfolding words join element after_element
words-element c [] n = rw n refl
words-element c (d ∷ path) n =
    words_more c (d ∷ path) n
    ∙ elim (Bool-cases (d == slash)) [
      | inl s ↦
          join-slash c d path _ s
          ∙ ap₂ (λ w p. (c ∷ w) ∷ words p) (sym (element_none d path s))
              (sym (after_element_none d path s))
      | inr m ↦
          ap (join c (d ∷ path)) (words-element d path m)
          ∙ join_more c d path (element (d ∷ path)) _ m
    ]
    ∙ ap₂ (λ w p. w ∷ words p) (sym (element_more c (d ∷ path) n))
        (sym (after_element_more c (d ∷ path) n))

length-skip_slashes : (path : List ℕ) → length (skip_slashes path) ≤ length path
unfolding skip_slashes
length-skip_slashes [] = omega arith
length-skip_slashes (c ∷ path) = elim (Bool-cases (c == slash)) [
  | inl s ↦ rw s (omega (arith, length-skip_slashes path))
  | inr n ↦ rw n (omega arith)
]

length-after_element : (path : List ℕ) → length (after_element path) ≤ length path
unfolding after_element
length-after_element [] = omega arith
length-after_element (c ∷ path) = elim (Bool-cases (c == slash)) [
  | inl s ↦ rw s (omega arith)
  | inr n ↦ rw n (omega (arith, length-after_element path))
]

heads : {a b : ℕ} {xs ys : List ℕ} → a ∷ xs ≡ b ∷ ys → a ≡ b
heads e = cc

head-skip_slashes :
    (path : List ℕ) (c : ℕ) (rest : List ℕ) → skip_slashes path ≡ c ∷ rest → (c == slash) ≡ false
unfolding skip_slashes
head-skip_slashes [] c rest e = cc
head-skip_slashes (d ∷ path) c rest e = elim (Bool-cases (d == slash)) [
  | inl s ↦ head-skip_slashes path c rest (sym (rw s refl) ∙ e)
  | inr n ↦
      subst (λ x. (x == slash) ≡ false)
        (heads {a = d} {b = c} {xs = path} {ys = rest} (sym (rw n refl) ∙ e)) n
]

pub skipelem-none : (path : List ℕ) → skip_slashes path ≡ [] → skipelem path ≡ none
unfolding skipelem
skipelem-none path e = rw (e, skipelem) refl

pub skipelem-some :
    (path : List ℕ) (c : ℕ) (rest : List ℕ)
    → skip_slashes path ≡ c ∷ rest
    → skipelem path
      ≡ some (take dirsiz (element (c ∷ rest)), skip_slashes (after_element (c ∷ rest)))
unfolding skipelem
skipelem-some path c rest e = rw (e, skipelem) refl

-- A path with no byte but slashes has no words.
pub no_words : (path : List ℕ) → skip_slashes path ≡ [] → words path ≡ []
unfolding words
no_words path e = sym (words-skip_slashes path) ∙ ap words e

-- Of a path that has a word, skipelem cuts the first, and leaves a shorter path with the others.
pub first_word :
    (path : List ℕ) (c : ℕ) (rest : List ℕ)
    → skip_slashes path ≡ c ∷ rest
    → (suc (length (skip_slashes (after_element (c ∷ rest)))) ≤ length path)
      × (words path ≡ element (c ∷ rest) ∷ words (skip_slashes (after_element (c ∷ rest))))
first_word path c rest e =
    let n = head-skip_slashes path c rest e in
    let left = after_element (c ∷ rest) in
    (
      omega (
        arith,
        length-skip_slashes left,
        ap length (after_element_more c rest n),
        length-after_element rest,
        length-skip_slashes path,
        ap length e,
      ),
      sym (words-skip_slashes path)
          ∙ ap words e
          ∙ words-element c rest n
          ∙ ap (λ ws. element (c ∷ rest) ∷ ws) (sym (words-skip_slashes left)),
    )

-- No word is left just when nothing of the path is.
pub words-is_end :
    (path : List ℕ)
    → is_end (skip_slashes path) ≡ is_end (map (take dirsiz) (words (skip_slashes path)))
unfolding words
words-is_end path = go (skip_slashes path) refl
  where
    go :
        (p : List ℕ)
        → skip_slashes path ≡ p
        → is_end (skip_slashes path) ≡ is_end (map (take dirsiz) (words (skip_slashes path)))
    go [] e = rw (ap (λ q. is_end (map (take dirsiz) (words q))) e) (rw (ap is_end e) refl)
    go (c ∷ rest) e =
        let some_left : is_end (map (take dirsiz) (words (c ∷ rest))) ≡ false =
          ap (λ ws. is_end (map (take dirsiz) ws))
            (words-element c rest (head-skip_slashes path c rest e)) in
        ap is_end e ∙ sym (ap (λ q. is_end (map (take dirsiz) (words q))) e ∙ some_left)
