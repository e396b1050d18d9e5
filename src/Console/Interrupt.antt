-- ===== src/Console/Interrupt.antt =====
-- consoleintr is the line editor.
use mathlib.Core.Path.{subst}
use xv.Common.{
  ℕ, ◌+◌, ◌-◌, ◌^◌, ◌<◌, ◌≡◌, ◌≢◌, refl, arith, Bool, true, false, not, ◌&&◌, ◌||◌, List, [], ◌∷◌,
  ◌==◌, ltb, if◌then◌else◌, length,
}
use xv.Console.{
  input_buf, ctrl, newline_of, u32, Console, erase, kill_line, store_char, enter, intr_step,
  intr_from, consoleintr,
}
use xv.Console.Editor.{Line, typed, rubout, edit, edit_all, IsBytes, Stands, Holds}
use xv.Console.Ring.{
  erase-Stands, kill_line-Stands, store_char-Stands, pass_on-Stands, has_room, is_last,
  newline_of-small,
}

-- The two nested tests of the default case, on both sides.
choose_enter :
    (a b : Bool) {x y z : Console} {l m n : Line}
    → (a ≡ true → Holds x l)
    → (a ≡ true → b ≡ false → Holds y m)
    → (a ≡ false → Holds z n)
    → Holds (if a then (if b then x else y) else z) (if a then (if b then l else m) else n)
choose_enter true true f g k = f refl
choose_enter true false f g k = g refl refl
choose_enter false b f g k = k refl

within : (b : Bool) (m n : ℕ) → (b && ltb m n) ≡ true → m < n
within b m n h = ground arith

not_newline : (c : ℕ) (a b : Bool) → (c == 10 || a || b) ≡ false → c ≢ 10
not_newline c a b h = ground arith

enter-Holds : (c : ℕ) (s : Console) (l : Line) → Holds s l → c < 256 → Holds (enter c s) (typed c l)
unfolding enter
enter-Holds c s l h small =
    let d = newline_of c in
    let total = length l.ready + length l.edited in
    let stored : total < input_buf
        → Stands (store_char d s) (record { ready = l.ready; edited = d ∷ l.edited }) =
      λ room. store_char-Stands d s l h.stands room (newline_of-small c small) in
    rw (has_room s l h.stands, is_last d s l h.stands)
      (choose_enter (not (c == 0) && ltb total input_buf)
        (d == 10 || d == ctrl 68 || total + 1 == input_buf)
        (λ a. record {
          stands =
              pass_on-Stands (store_char d s) (record { ready = l.ready; edited = d ∷ l.edited })
                (stored (within (not (c == 0)) total input_buf a));
          unbroken = refl;
        })
        (λ a b. record {
          stands = stored (within (not (c == 0)) total input_buf a);
          unbroken = (not_newline d (d == ctrl 68) (total + 1 == input_buf) b, h.unbroken);
        })
        (λ a. h))

rubout-Holds :
    (s : Console) (q xs : List ℕ)
    → Holds s (record { ready = q; edited = xs })
    → Holds (if s.e == s.w then s else erase s) (record { ready = q; edited = rubout xs })
rubout-Holds s q [] h =
    subst (λ t. Holds t (record { ready = q; edited = [] }))
      (ground (arith, h.stands.e_at, h.stands.w_at)) h
rubout-Holds s q (x ∷ xs) h =
    let apart : s.e ≢ s.w =
      λ e. absurd (omega (arith, e, h.stands.e_at, h.stands.w_at, h.stands.room)) in
    subst (λ t. Holds t (record { ready = q; edited = xs })) (ground (arith, apart))
      (record { stands = erase-Stands s q x xs h.stands; unbroken = h.unbroken.1 })

kill-Holds :
    (s : Console) (l : Line)
    → Holds s l
    → Holds (kill_line (u32 (s.e + 2 ^ 32 - s.w)) s) (record { ready = l.ready; edited = [] })
kill-Holds s l h = record {
  stands =
      kill_line-Stands (u32 (s.e + 2 ^ 32 - s.w)) s l.ready l.edited
        (omega (arith, h.stands.e_at, h.stands.w_at, h.stands.room)) h.unbroken h.stands;
  unbroken = refl;
}

choose_step :
    (a b c : Bool) (flag : Bool) {w x y z : Console} {k l m n : Line}
    → Holds w k
    → Holds x l
    → Holds y m
    → Holds z n
    → Holds
        (if◌then◌else◌ {A = Console × Bool} a
          (w, true)
          (if b then (x, flag) else (if c then (y, flag) else (z, flag)))).0
        (if a then k else (if b then l else (if c then m else n)))
choose_step true b c flag h1 h2 h3 h4 = h1
choose_step false true c flag h1 h2 h3 h4 = h2
choose_step false false true flag h1 h2 h3 h4 = h3
choose_step false false false flag h1 h2 h3 h4 = h4

intr_step-Holds :
    (c : ℕ) (s : Console) (flag : Bool) (l : Line)
    → Holds s l
    → c < 256
    → Holds (intr_step c (s, flag)).0 (edit c l)
unfolding intr_step
intr_step-Holds c s flag l h small =
    choose_step (c == ctrl 80) (c == ctrl 85) (c == ctrl 72 || c == 127) flag h (kill-Holds s l h)
      (rubout-Holds s l.ready l.edited h) (enter-Holds c s l h small)

intr_from-Holds :
    (codes : List ℕ) (s : Console) (flag : Bool) (l : Line)
    → IsBytes codes
    → Holds s l
    → Holds (intr_from codes (s, flag)).0 (edit_all codes l)
unfolding intr_from
intr_from-Holds [] s flag l b h = h
intr_from-Holds (c ∷ codes) s flag l b h =
    intr_from-Holds codes (intr_step c (s, flag)).0 (intr_step c (s, flag)).1 (edit c l) b.1
      (intr_step-Holds c s flag l h b.0)

-- The keyboard's interrupt handler, for any codes below 256 and a ring that stands for a line, keeps
-- the ring and its counters, also when they wrap, in step with a line editor on lists: control-U empties the edited line, a rubout
-- drops its last byte, and a newline, control-D or the 128th byte passes it to the readers.
pub consoleintr-Holds :
    (codes : List ℕ) (s : Console) (l : Line)
    → IsBytes codes
    → Holds s l
    → Holds (consoleintr codes s).0 (edit_all codes l)
unfolding consoleintr
consoleintr-Holds codes s l b h = intr_from-Holds codes s false l b h
