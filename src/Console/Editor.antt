-- ===== src/Console/Editor.antt =====
-- What the console promises: a line editor on two lists, and how the ring stands for them.
use xv.Common.{
  ℕ, zero, suc, ◌+◌, ◌-◌, ◌≤◌, ◌<◌, ◌^◌, ◌≡◌, ◌≢◌, Bool, not, ◌&&◌, ◌||◌, List, [], ◌∷◌, ◌++◌, ◌==◌,
  ltb, if◌then◌else◌, length, Turn, returns, sleeps,
}
use xv.Common.Int.{ℤ, pos, negsuc}
use xv.Console.{input_buf, ctrl, newline_of, u32, Console}
use xv.Console.Buffer.{IsAhead, IsBehind, rev_onto}

-- The bytes that readers may take, and the line that is still edited, its latest byte first.
pub record Line : Type 0 where
  pub ready : List ℕ
  pub edited : List ℕ

-- A byte is refused when the console holds 128 of them. A newline, control-D and the 128th byte
-- pass the line on.
abbrev pub typed : ℕ → Line → Line
typed c l =
    if not (c == 0) && ltb (length l.ready + length l.edited) input_buf
    then (if newline_of c == 10
          || newline_of c == ctrl 68
          || length l.ready + length l.edited + 1 == input_buf
        then record { ready = l.ready ++ rev_onto l.edited (newline_of c ∷ []); edited = [] }
        else record { ready = l.ready; edited = newline_of c ∷ l.edited })
    else l

abbrev pub rubout : List ℕ → List ℕ
rubout [] = []
rubout (x ∷ xs) = xs

abbrev pub edit : ℕ → Line → Line
edit c l =
    if c == ctrl 80
    then l
    else (if c == ctrl 85
        then record { ready = l.ready; edited = [] }
        else (if c == ctrl 72 || c == 127
            then record { ready = l.ready; edited = rubout l.edited }
            else typed c l))

abbrev pub edit_all : List ℕ → Line → Line
edit_all [] l = l
edit_all (c ∷ codes) l = edit_all codes (edit c l)

-- A reader takes bytes up to a newline, or up to a control-D, which it leaves to the next reader
-- when it has bytes to return; it sleeps when there are none left.
abbrev pub take_line :
    (target : ℕ) (killed : Bool) (n : ℕ) (ready : List ℕ) (got : List ℕ)
    → Turn (List ℕ × (ℕ × List ℕ)) (List ℕ × (ℤ × List ℕ))
take_line target killed zero ready got = returns (ready, (pos (target - zero), got))
take_line target killed (suc n) [] got =
    if killed then returns ([], (negsuc 0, got)) else sleeps ([], (suc n, got))
take_line target killed (suc n) (c ∷ ready) got =
    let more = take_line target killed n ready (got ++ (c ∷ [])) in
    if c == ctrl 68
    then returns ((if ltb (suc n) target then c ∷ ready else ready), (pos (target - suc n), got))
    else (if c == 10 then returns (ready, (pos (target - n), got ++ (c ∷ []))) else more)

-- No newline is among the bytes.
abbrev pub IsUnbroken : List ℕ → Type 0
IsUnbroken [] = input_buf ≡ input_buf
IsUnbroken (x ∷ xs) = (x ≢ 10) × IsUnbroken xs

-- Every code of the list is a byte.
abbrev pub IsBytes : List ℕ → Type 0
IsBytes [] = input_buf ≡ input_buf
IsBytes (c ∷ codes) = (c < 256) × IsBytes codes

-- The ring and its three counters stand for the line `l`.
pub record Stands (s : Console) (l : Line) : Type 0 where
  pub r_word : s.r < 2 ^ 32
  pub w_at : s.w ≡ u32 (s.r + length l.ready)
  pub e_at : s.e ≡ u32 (s.w + length l.edited)
  pub room : length l.ready + length l.edited ≤ input_buf
  pub ready : IsAhead s.buf s.r l.ready
  pub edited : IsBehind s.buf s.e l.edited

-- … and the edited line has no newline, which is what stops control-U.
pub record Holds (s : Console) (l : Line) : Type 0 where
  pub stands : Stands s l
  pub unbroken : IsUnbroken l.edited
