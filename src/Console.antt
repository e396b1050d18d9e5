-- ===== src/Console.antt =====
-- console.c: the input buffer of the console, its interrupt handler and the device's read and
-- write. Every function runs under `cons.lock`; `sleep` gives the lock up, so a run of consoleread
-- ends there and goes on from that state at the next wakeup.
pub mod Buffer
pub mod Editor
pub mod Ring
pub mod Interrupt
pub mod Reader
pub mod Typing
mod Tests
use xv.Common.{
  ℕ, zero, suc, ◌+◌, ◌-◌, ◌%◌, ◌^◌, Bool, true, false, not, ◌&&◌, ◌||◌, List, [], ◌∷◌, ◌++◌, map,
  ◌==◌, ltb, if◌then◌else◌, update, Turn, returns, sleeps,
}
use xv.Common.Int.{ℤ, pos, negsuc}

abbrev pub input_buf : ℕ
input_buf = 128

-- `BACKSPACE`, which consputc shows as a step back, a space and a step back
abbrev pub backspace : ℕ
backspace = 0x100

-- `C(x)`: the code of control and a letter
abbrev pub ctrl : ℕ → ℕ
ctrl letter = letter - 64

-- `input`, with what consputc has been given, the latest first, and how often
-- `wakeup(&input.r)` has been called. `r`, `w` and `e` are 32-bit counters that wrap.
pub record Console : Type 0 where
  pub buf : ℕ → ℕ
  pub r : ℕ
  pub w : ℕ
  pub e : ℕ
  pub shown : List ℕ
  pub wakeups : ℕ

abbrev pub u32 : ℕ → ℕ
u32 n = n % 2 ^ 32

-- `n - 1` on 32 bits
abbrev pub prior : ℕ → ℕ
prior n = u32 (n + (2 ^ 32 - 1))

abbrev pub consputc : ℕ → Console → Console
consputc c s = record s { shown = c ∷ s.shown }

-- input.e--; consputc(BACKSPACE)
abbrev pub erase : Console → Console
erase s = consputc backspace (record s { e = prior s.e })

-- The loop of control-U. `rounds` is the distance from `w` to `e`, which every round shortens.
unfoldable pub kill_line : (rounds : ℕ) → Console → Console
kill_line zero s = s
kill_line (suc rounds) s =
    let rest = kill_line rounds (erase s) in
    if not (s.e == s.w) && not (s.buf (prior s.e % input_buf) == 10) then rest else s

-- input.buf[input.e++ % INPUT_BUF] = c; consputc(c)
abbrev pub store_char : ℕ → Console → Console
store_char c s =
    consputc c (record s { buf = update s.buf (s.e % input_buf) (c % 256); e = u32 (s.e + 1) })

-- input.w = input.e; wakeup(&input.r)
abbrev pub pass_on : Console → Console
pass_on s = record s { w = s.e; wakeups = s.wakeups + 1 }

-- A carriage return is stored as a newline.
abbrev pub newline_of : ℕ → ℕ
newline_of c = if c == 13 then 10 else c

-- the default case of the switch
unfoldable pub enter : ℕ → Console → Console
enter c s =
    if not (c == 0) && ltb (u32 (s.e + 2 ^ 32 - s.r)) input_buf
    then (let s' = store_char (newline_of c) s in
        if newline_of c == 10 || newline_of c == ctrl 68 || s'.e == u32 (s'.r + input_buf)
        then pass_on s'
        else s')
    else s

-- One round of the loop: the console after the code `c`, and whether procdump is to be called.
unfoldable pub intr_step : ℕ → Console × Bool → Console × Bool
intr_step c (s, doprocdump) =
    if c == ctrl 80
    then (s, true)
    else (if c == ctrl 85
        then (kill_line (u32 (s.e + 2 ^ 32 - s.w)) s, doprocdump)
        else (if c == ctrl 72 || c == 127
            then ((if s.e == s.w then s else erase s), doprocdump)
            else (enter c s, doprocdump)))

-- The loop of consoleintr over the codes that `getc` returns before a negative one.
unfoldable pub intr_from : (codes : List ℕ) → Console × Bool → Console × Bool
intr_from [] state = state
intr_from (c ∷ codes) state = intr_from codes (intr_step c state)

-- consoleintr: the console, and whether procdump is called at the end.
unfoldable pub consoleintr : (codes : List ℕ) → Console → Console × Bool
consoleintr codes s = intr_from codes (s, false)

-- input.buf[input.r++ % INPUT_BUF]
abbrev pub fetch : Console → ℕ × Console
fetch s = (s.buf (s.r % input_buf), record s { r = u32 (s.r + 1) })

-- consoleread from the head of its loop, with `n` bytes left of `target` and `got` stored at `dst`.
-- It returns what consoleread returns and what it has stored, or sleeps on `&input.r`.
unfoldable pub consoleread_from :
    (target : ℕ) (killed : Bool) (n : ℕ)
    → Console
    → (got : List ℕ) → Turn (Console × (ℕ × List ℕ)) (Console × (ℤ × List ℕ))
consoleread_from target killed zero s got = returns (s, (pos (target - zero), got))
consoleread_from target killed (suc n) s got =
    let (c, s') = fetch s in
    let more = consoleread_from target killed n s' (got ++ (c ∷ [])) in
    if s.r == s.w
    then (if killed then returns (s, (negsuc 0, got)) else sleeps (s, (suc n, got)))
    else (if c == ctrl 68
        then returns (
          (if ltb (suc n) target then record s' { r = prior s'.r } else s'),
          (pos (target - suc n), got),
        )
        else (if c == 10 then returns (s', (pos (target - n), got ++ (c ∷ []))) else more))

unfoldable pub consoleread :
    (n : ℕ) (killed : Bool) → Console → Turn (Console × (ℕ × List ℕ)) (Console × (ℤ × List ℕ))
consoleread n killed s = consoleread_from n killed n s []

-- The loop of consolewrite.
unfoldable pub put_bytes : List ℕ → Console → Console
put_bytes [] s = s
put_bytes (byte ∷ rest) s = put_bytes rest (consputc (byte % 256) s)

-- consolewrite of the bytes buf[0], …, buf[n - 1]
unfoldable pub consolewrite : (bytes : List ℕ) (n : ℕ) → Console → Console × ℕ
consolewrite bytes n s = (put_bytes bytes s, n)
