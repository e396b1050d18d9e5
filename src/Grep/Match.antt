-- ===== src/Grep/Match.antt =====
-- The matcher accepts just what the patterns mean.
use xv.Common.{
  ℕ, ◌≡◌, ◌≢◌, ◌↔◌, refl, ap, arith, ℕ_discrete, Bool, true, false, Bool-cases, inl, inr, List, [],
  ◌∷◌, ◌++◌, ◌==◌,
}
use xv.Grep.{caret, dollar, asterisk, fits, matchstar, matchone, matchhere, match_from, match_text}

-- every character of a run fits `c`
abbrev pub AllFit : ℕ → List ℕ → Type 0
AllFit c [] = Unit
AllFit c (t ∷ ts) = (fits c t ≡ true) × AllFit c ts

-- What a pattern means at the beginning of a text.
pub data Begins : List ℕ → List ℕ → Type 0 where
  done : (text : List ℕ) → Begins [] text
  at_end : Begins (dollar ∷ []) []
  last : (c t : ℕ) (ts : List ℕ) → c ≢ dollar → fits c t ≡ true → Begins (c ∷ []) (t ∷ ts)
  one :
      (c d t : ℕ) (re ts : List ℕ)
      → d ≢ asterisk
      → fits c t ≡ true
      → Begins (d ∷ re) ts
      → Begins (c ∷ d ∷ re) (t ∷ ts)
  many :
      (c : ℕ) (re run rest text : List ℕ)
      → text ≡ run ++ rest
      → AllFit c run
      → Begins re rest
      → Begins (c ∷ asterisk ∷ re) text

-- A run that fits and then a text that `here` accepts.
record Splits (c : ℕ) (here : List ℕ → Bool) (text : List ℕ) : Type 0 where
  run : List ℕ
  rest : List ℕ
  whole : text ≡ run ++ rest
  fit : AllFit c run
  accepted : here rest ≡ true

matchstar-Splits :
    (c : ℕ) (here : List ℕ → Bool) (text : List ℕ)
    → matchstar c here text ≡ true
    → Splits c here text
unfolding matchstar
matchstar-Splits c here [] e = record { run = []; rest = []; whole = refl; fit = tt; accepted = e }
matchstar-Splits c here (t ∷ ts) e = elim (Bool-cases (here (t ∷ ts))) [
  | inl now ↦ record { run = []; rest = t ∷ ts; whole = refl; fit = tt; accepted = now }
  | inr later ↦ elim (Bool-cases (fits c t)) [
    | inl fit ↦
        let s = matchstar-Splits c here ts (rw (later, fit) at e) in
        record {
          run = t ∷ s.run;
          rest = s.rest;
          whole = ap (λ l. t ∷ l) s.whole;
          fit = (fit, s.fit);
          accepted = s.accepted;
        }
    | inr misfit ↦ absurd (cc (rw (later, misfit) at e))
  ]
]

matchstar_accepts :
    (c : ℕ) (here : List ℕ → Bool) (run rest : List ℕ)
    → AllFit c run
    → here rest ≡ true
    → matchstar c here (run ++ rest) ≡ true
unfolding matchstar
matchstar_accepts c here [] [] fit e = e
matchstar_accepts c here [] (t ∷ ts) fit e = rw e refl
matchstar_accepts c here (t ∷ run) rest fit e =
    let ih = matchstar_accepts c here run rest fit.1 e in
    elim (Bool-cases (here (t ∷ (run ++ rest)))) [
      | inl now ↦ rw now refl
      | inr later ↦ rw (later, fit.0) ih
    ]

sound_one :
    (c d : ℕ) (re text : List ℕ)
    → d ≢ asterisk
    → ((ts : List ℕ) → matchhere (d ∷ re) ts ≡ true → Begins (d ∷ re) ts)
    → matchone c (matchhere (d ∷ re)) text ≡ true
    → Begins (c ∷ d ∷ re) text
sound_one c d re [] ne rest e = absurd (cc e)
sound_one c d re (t ∷ ts) ne rest e = elim (Bool-cases (fits c t)) [
  | inl fit ↦ one c d t re ts ne fit (rest ts (rw fit at e))
  | inr misfit ↦ absurd (cc (rw misfit at e))
]

sound : (re text : List ℕ) → matchhere re text ≡ true → Begins re text
unfolding matchhere
sound [] text e = done text
sound (c ∷ []) [] e = elim (ℕ_discrete c dollar) [
  | yes q ↦ rw q at_end
  | no q ↦ absurd (ground arith)
]
sound (c ∷ []) (t ∷ ts) e = elim (ℕ_discrete c dollar) [
  | yes q ↦ absurd (ground arith)
  | no q ↦ last c t ts q (ground arith)
]
sound (c ∷ d ∷ re) text e = elim (Bool-cases (d == asterisk)) [
  | inl starred ↦
      let s = matchstar-Splits c (matchhere re) text (rw starred at e) in
      let q : d ≡ asterisk = ground arith in
      rw q (many c re s.run s.rest text s.whole s.fit (sound re s.rest s.accepted))
  | inr plain ↦ sound_one c d re text (ground arith) (λ ts e'. sound (d ∷ re) ts e') (rw plain at e)
]

complete : (re text : List ℕ) → Begins re text → matchhere re text ≡ true
unfolding matchhere
complete _ _ (done text) = refl
complete _ _ at_end = refl
complete _ _ (last c t ts ne fit) = ground arith
complete _ _ (one c d t re ts ne fit b) =
    let ih = complete (d ∷ re) ts b in
    let plain : (d == asterisk) ≡ false = ground arith in rw (plain, fit) ih
complete _ _ (many c re run rest text e fit b) =
    rw e (matchstar_accepts c (matchhere re) run rest fit (complete re rest b))

-- matchhere accepts exactly the texts that begin with what the pattern means.
pub matchhere_iff : (re text : List ℕ) → (matchhere re text ≡ true) ↔ Begins re text
matchhere_iff re text = (sound re text, complete re text)

-- The pattern's meaning somewhere in the text.
pub record Contains (re text : List ℕ) : Type 0 where
  pub before : List ℕ
  pub after : List ℕ
  pub whole : text ≡ before ++ after
  pub begins : Begins re after

match_from-Contains : (re text : List ℕ) → match_from re text ≡ true → Contains re text
unfolding match_from
match_from-Contains re [] e = record {
  before = [];
  after = [];
  whole = refl;
  begins = sound re [] e;
}
match_from-Contains re (t ∷ ts) e = elim (Bool-cases (matchhere re (t ∷ ts))) [
  | inl now ↦ record { before = []; after = t ∷ ts; whole = refl; begins = sound re (t ∷ ts) now }
  | inr later ↦
      let c = match_from-Contains re ts (rw later at e) in
      record {
        before = t ∷ c.before;
        after = c.after;
        whole = ap (λ l. t ∷ l) c.whole;
        begins = c.begins;
      }
]

match_from_accepts :
    (re before after : List ℕ) → Begins re after → match_from re (before ++ after) ≡ true
unfolding match_from
match_from_accepts re [] [] b = complete re [] b
match_from_accepts re [] (t ∷ ts) b = rw (complete re (t ∷ ts) b) refl
match_from_accepts re (t ∷ before) after b =
    let ih = match_from_accepts re before after b in
    elim (Bool-cases (matchhere re (t ∷ (before ++ after)))) [
      | inl now ↦ rw now refl
      | inr later ↦ rw later ih
    ]

-- A pattern with no ^ at its front matches exactly the texts that contain its meaning.
pub match_iff :
    (c : ℕ) (re text : List ℕ)
    → c ≢ caret
    → (match_text (c ∷ re) text ≡ true) ↔ Contains (c ∷ re) text
unfolding match_text
match_iff c re text ne =
    let floating : (c == caret) ≡ false = ground arith in
    rw floating (
      match_from-Contains (c ∷ re) text,
      λ k. rw k.whole (match_from_accepts (c ∷ re) k.before k.after k.begins),
    )
