-- ===== src/Console/Reader.antt =====
-- consoleread takes lines from the editor's list.
use mathlib.Core.Path.{subst}
use xv.Common.{
  ℕ, zero, suc, ◌-◌, ◌≡◌, arith, Bool, true, false, List, [], ◌∷◌, ◌++◌, ◌==◌, ltb, if◌then◌else◌,
  Turn, returns, sleeps,
}
use xv.Common.Int.{ℤ, pos, negsuc}
use xv.Console.{ctrl, prior, Console, fetch, consoleread_from, consoleread}
use xv.Console.Editor.{Line, take_line, Holds}

-- A run on the ring ends as the run on the list does, and the ring stands for the list that is left.
pub data Agrees (edited : List ℕ)
    : Turn (Console × (ℕ × List ℕ)) (Console × (ℤ × List ℕ))
      → Turn (List ℕ × (ℕ × List ℕ)) (List ℕ × (ℤ × List ℕ))
      → Type 0 where
  both_return :
      (s : Console) (ready : List ℕ) (result : ℤ × List ℕ)
      → Holds s (record { ready = ready; edited = edited })
      → Agrees edited (returns (s, result)) (returns (ready, result))
  both_sleep :
      (s : Console) (ready : List ℕ) (left : ℕ × List ℕ)
      → Holds s (record { ready = ready; edited = edited })
      → Agrees edited (sleeps (s, left)) (sleeps (ready, left))

fetch-Holds :
    (s : Console) (c : ℕ) (q xs : List ℕ)
    → Holds s (record { ready = c ∷ q; edited = xs })
    → Holds (fetch s).1 (record { ready = q; edited = xs })
fetch-Holds s c q xs h = record {
  stands = record {
    r_word = omega arith;
    w_at = omega (arith, h.stands.w_at);
    e_at = h.stands.e_at;
    room = omega (arith, h.stands.room);
    ready = h.stands.ready.1;
    edited = h.stands.edited;
  };
  unbroken = h.unbroken;
}

-- What control-D puts back is there for the next reader.
unfetch-Holds :
    (s : Console) (c : ℕ) (q xs : List ℕ)
    → Holds s (record { ready = c ∷ q; edited = xs })
    → Holds (record (fetch s).1 { r = prior (fetch s).1.r }) (record { ready = c ∷ q; edited = xs })
unfetch-Holds s c q xs h =
    subst (λ r. Holds (record s { r = r }) (record { ready = c ∷ q; edited = xs }))
      (omega (arith, h.stands.r_word)) h

both_if :
    (edited : List ℕ) (b : Bool) {x y : Turn (Console × (ℕ × List ℕ)) (Console × (ℤ × List ℕ))}
    {x' y' : Turn (List ℕ × (ℕ × List ℕ)) (List ℕ × (ℤ × List ℕ))}
    → Agrees edited x x'
    → Agrees edited y y'
    → Agrees edited (if b then x else y) (if b then x' else y')
both_if edited true f g = f
both_if edited false f g = g

put_back_eof :
    (s s' : Console) (q q' xs : List ℕ) (b : Bool) (result : ℤ × List ℕ)
    → Holds s (record { ready = q; edited = xs })
    → Holds s' (record { ready = q'; edited = xs })
    → Agrees xs (returns ((if b then s else s'), result)) (returns ((if b then q else q'), result))
put_back_eof s s' q q' xs true result h k = both_return s q result h
put_back_eof s s' q q' xs false result h k = both_return s' q' result k

consoleread_from-Agrees :
    (target : ℕ) (killed : Bool) (n : ℕ) (s : Console) (q xs got : List ℕ)
    → Holds s (record { ready = q; edited = xs })
    → Agrees xs (consoleread_from target killed n s got) (take_line target killed n q got)
unfolding consoleread_from
consoleread_from-Agrees target killed zero s q xs got h =
    both_return s q (pos (target - zero), got) h
consoleread_from-Agrees target killed (suc n) s [] xs got h =
    let none_left : (s.r == s.w) ≡ true = ground (arith, h.stands.w_at, h.stands.r_word) in
    rw none_left
      (both_if xs killed (both_return s [] (negsuc 0, got) h) (both_sleep s [] (suc n, got) h))
consoleread_from-Agrees target killed (suc n) s (c ∷ q) xs got h =
    let some_left : (s.r == s.w) ≡ false =
      ground (arith, h.stands.w_at, h.stands.r_word, h.stands.room) in
    rw (some_left, h.stands.ready.0)
      (both_if xs (c == ctrl 68)
        (put_back_eof (record (fetch s).1 { r = prior (fetch s).1.r }) (fetch s).1 (c ∷ q) q xs
          (ltb (suc n) target) (pos (target - suc n), got) (unfetch-Holds s c q xs h)
          (fetch-Holds s c q xs h))
        (both_if xs (c == 10)
          (both_return (fetch s).1 q (pos (target - n), got ++ (c ∷ [])) (fetch-Holds s c q xs h))
          (consoleread_from-Agrees target killed n (fetch s).1 q xs (got ++ (c ∷ []))
            (fetch-Holds s c q xs h))))

-- consoleread, on a ring that stands for any line, does what a reader of the editor's list does: it returns
-- the same count and bytes, or -1 when it is killed with nothing to take, or sleeps with the same
-- bytes still to come, and the ring then stands for the list that this reader leaves.
pub consoleread-Agrees :
    (n : ℕ) (killed : Bool) (s : Console) (l : Line)
    → Holds s l
    → Agrees l.edited (consoleread n killed s) (take_line n killed n l.ready [])
unfolding consoleread
consoleread-Agrees n killed s l h = consoleread_from-Agrees n killed n s l.ready l.edited [] h
