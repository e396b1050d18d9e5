-- ===== src/Console/Tests.antt =====
-- An empty console whose counters are about to wrap.

use xv.Common.{◌-◌, ◌^◌, ◌≡◌, refl, arith, false, [], ◌∷◌}
use xv.Console.{Console, consoleintr, intr_from, intr_step, enter, consoleread}
use xv.Console.Editor.{Line, edit_all, take_line, Holds}
use xv.Console.Interrupt.{consoleintr-Holds}
use xv.Console.Reader.{Agrees, consoleread-Agrees}
use xv.Console.Typing.{Delivers, IsPlain, consoleread-consoleintr}

abbrev quiet : Console
quiet = record {
  buf = λ i. 0;
  r = 2 ^ 32 - 1;
  w = 2 ^ 32 - 1;
  e = 2 ^ 32 - 1;
  shown = [];
  wakeups = 0;
}

abbrev no_line : Line
no_line = record { ready = []; edited = [] }

quiet-Holds : Holds quiet no_line
quiet-Holds = record {
  stands = record {
    r_word = ground arith;
    w_at = refl;
    e_at = refl;
    room = ground arith;
    ready = refl;
    edited = refl;
  };
  unbroken = refl;
}

ls-IsPlain : IsPlain 108 × IsPlain 115
ls-IsPlain = omega arith

-- l, x, rubout, s, carriage return
consoleintr-Holds_example :
    Holds
      (consoleintr (108 ∷ 120 ∷ 8 ∷ 115 ∷ 13 ∷ []) quiet).0
      (edit_all (108 ∷ 120 ∷ 8 ∷ 115 ∷ 13 ∷ []) no_line)
consoleintr-Holds_example =
    consoleintr-Holds (108 ∷ 120 ∷ 8 ∷ 115 ∷ 13 ∷ []) quiet no_line
      (ground arith, (ground arith, (ground arith, (ground arith, (ground arith, refl)))))
      quiet-Holds

consoleread-Agrees_example : Agrees [] (consoleread 4 false quiet) (take_line 4 false 4 [] [])
consoleread-Agrees_example = consoleread-Agrees 4 false quiet no_line quiet-Holds

consoleread-consoleintr_example :
    Delivers 3
      (108 ∷ 115 ∷ 10 ∷ [])
      (consoleread 5 false (consoleintr (108 ∷ 115 ∷ 13 ∷ []) quiet).0)
consoleread-consoleintr_example =
    consoleread-consoleintr 5 false (108 ∷ 115 ∷ []) quiet (ls-IsPlain.0, (ls-IsPlain.1, refl))
      (ground arith) (ground arith) quiet-Holds

typed_line : (consoleintr (108 ∷ 120 ∷ 8 ∷ 115 ∷ 13 ∷ []) quiet).0.w ≡ 2
unfolding consoleintr intr_from intr_step enter
typed_line = refl
