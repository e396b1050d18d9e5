-- ===== src/Console/Ring.antt =====
-- What one change of the ring does to the line that it stands for.
use mathlib.Core.Path.{subst}
use xv.Common.{
  ℕ, zero, suc, ◌+◌, ◌-◌, ◌%◌, ◌^◌, ◌<◌, ◌≡◌, ◌≢◌, refl, sym, ap, ◌∙◌, arith, List, [], ◌∷◌, ◌++◌,
  ◌==◌, ltb, length, length-append, update,
}
use xv.Console.{input_buf, newline_of, u32, prior, Console, erase, kill_line, store_char, pass_on}
use xv.Console.Buffer.{
  IsAhead, IsBehind, rev_onto, IsAhead-append, IsAhead-rev_onto, IsAhead-update, IsBehind-update,
}
use xv.Console.Editor.{Line, IsUnbroken, Stands}

length-rev_onto : (xs ys : List ℕ) → length (rev_onto xs ys) ≡ length xs + length ys
length-rev_onto [] ys = omega arith
length-rev_onto (x ∷ xs) ys = omega (arith, length-rev_onto xs (x ∷ ys))

pub erase-Stands :
    (s : Console) (q : List ℕ) (x : ℕ) (xs : List ℕ)
    → Stands s (record { ready = q; edited = x ∷ xs })
    → Stands (erase s) (record { ready = q; edited = xs })
erase-Stands s q x xs h = record {
  r_word = h.r_word;
  w_at = h.w_at;
  e_at = omega (arith, h.e_at, h.w_at, h.room);
  room = omega (arith, h.room);
  ready = h.ready;
  edited = h.edited.1;
}

-- Control-U rubs out the whole line.
pub kill_line-Stands :
    (rounds : ℕ) (s : Console) (q xs : List ℕ)
    → rounds ≡ length xs
    → IsUnbroken xs
    → Stands s (record { ready = q; edited = xs })
    → Stands (kill_line rounds s) (record { ready = q; edited = [] })
unfolding kill_line
kill_line-Stands zero s q [] b u h = h
kill_line-Stands zero s q (x ∷ xs) b u h = absurd (omega (arith, b))
kill_line-Stands (suc k) s q [] b u h = absurd (omega (arith, b))
kill_line-Stands (suc k) s q (x ∷ xs) b u h =
    let ih = kill_line-Stands k (erase s) q xs (omega (arith, b)) u.1 (erase-Stands s q x xs h) in
    let apart : s.e ≢ s.w = λ e. absurd (omega (arith, e, h.e_at, h.w_at, h.room)) in
    let byte : s.buf (prior s.e % input_buf) ≢ 10 = λ e. u.0 (sym h.edited.0 ∙ e) in
    subst (λ t. Stands t (record { ready = q; edited = [] })) (ground (arith, apart, byte)) ih

pub store_char-Stands :
    (c : ℕ) (s : Console) (l : Line)
    → Stands s l
    → length l.ready + length l.edited < input_buf
    → c < 256
    → Stands (store_char c s) (record { ready = l.ready; edited = c ∷ l.edited })
store_char-Stands c s l h room small = record {
  r_word = h.r_word;
  w_at = h.w_at;
  e_at = omega (arith, h.e_at, h.w_at, h.room);
  room = omega (arith, room);
  ready =
      subst (λ i. IsAhead (update s.buf (i % input_buf) (c % 256)) s.r l.ready)
        (omega (arith, h.e_at, h.w_at, h.room))
        (IsAhead-update s.buf s.r (c % 256) (length l.ready + length l.edited) l.ready h.ready
          (omega arith) room h.r_word);
  edited = (
    ground (arith, h.e_at),
    subst (λ b. IsBehind (update s.buf (b % input_buf) (c % 256)) (prior (u32 (s.e + 1))) l.edited)
        (omega (arith, h.e_at))
        (subst (λ e. IsBehind (update s.buf (u32 (s.e + 0) % input_buf) (c % 256)) e l.edited)
          (omega (arith, h.e_at))
          (IsBehind-update s.buf s.e (c % 256) 0 l.edited h.edited (omega arith)
            (omega (arith, h.e_at)))),
  );
}

pub pass_on-Stands :
    (s : Console) (l : Line)
    → Stands s l
    → Stands (pass_on s) (record { ready = l.ready ++ rev_onto l.edited []; edited = [] })
pass_on-Stands s l h =
    let size = length-append l.ready (rev_onto l.edited []) in
    let size' = length-rev_onto l.edited [] in
    record {
      r_word = h.r_word;
      w_at = omega (arith, h.e_at, h.w_at, size, size');
      e_at = omega (arith, h.e_at);
      room = omega (arith, h.room, size, size');
      ready =
          IsAhead-append s.buf s.r l.ready (rev_onto l.edited []) h.ready
            (subst (λ a. IsAhead s.buf a (rev_onto l.edited []))
              (omega (arith, h.e_at, h.w_at, h.room))
              (IsAhead-rev_onto s.buf s.e l.edited [] h.edited refl (omega (arith, h.e_at))
                (omega (arith, h.room))))
            h.r_word;
      edited = refl;
    }

-- The tests of the default case, by the lengths of the lists.
pub has_room :
    (s : Console) (l : Line)
    → Stands s l
    → ltb (u32 (s.e + 2 ^ 32 - s.r)) input_buf ≡ ltb (length l.ready + length l.edited) input_buf
has_room s l h = ap (λ n. ltb n input_buf) (omega (arith, h.e_at, h.w_at, h.room, h.r_word))

pub is_last :
    (c : ℕ) (s : Console) (l : Line)
    → Stands s l
    → ((store_char c s).e == u32 (s.r + input_buf))
      ≡ (length l.ready + length l.edited + 1 == input_buf)
is_last c s l h = ground (arith, h.e_at, h.w_at, h.room, h.r_word)

pub newline_of-small : (c : ℕ) → c < 256 → newline_of c < 256
newline_of-small c h = ground arith
