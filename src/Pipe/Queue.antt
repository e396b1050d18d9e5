-- ===== src/Pipe/Queue.antt =====
-- A pipe is a queue of at most PIPESIZE bytes, also when its counters wrap.
use xv.Common.{
  ℕ, zero, suc, ◌+◌, ◌-◌, ◌%◌, ◌^◌, ◌≤◌, ◌<◌, ◌≡◌, refl, ap, ap₂, ◌∙◌, arith, List, [], ◌∷◌, ◌++◌,
  ◌==◌, update, update_ne, length,
}
use xv.Pipe.{pipe_size, Pipe, u32, is_full, is_empty, put, get}

-- the `n` bytes from counter `r` on
abbrev pub window : (ℕ → ℕ) → ℕ → ℕ → List ℕ
window bytes r zero = []
window bytes r (suc n) = bytes (r % pipe_size) ∷ window bytes (u32 (r + 1)) n

-- how many bytes the pipe holds: nwrite - nread, modulo 2^32
abbrev pub count : Pipe → ℕ
count p = (p.nwrite + 2 ^ 32 - p.nread) % 2 ^ 32

abbrev pub contents : Pipe → List ℕ
contents p = window p.bytes p.nread (count p)

pub record IsValid (p : Pipe) : Type 0 where
  pub nread_word : p.nread < 2 ^ 32
  pub nwrite_word : p.nwrite < 2 ^ 32
  pub bounded : count p ≤ pipe_size

pub length-window : (bytes : ℕ → ℕ) (r n : ℕ) → length (window bytes r n) ≡ n
length-window bytes r zero = refl
length-window bytes r (suc n) = ap suc (length-window bytes (u32 (r + 1)) n)

-- Writing just past a window extends it by that byte.
window-update :
    (bytes : ℕ → ℕ) (x n r i : ℕ)
    → n < pipe_size
    → i ≡ (r + n) % pipe_size
    → window (update bytes i x) r (suc n) ≡ window bytes r n ++ (x ∷ [])
window-update bytes x zero r i h e = ap (λ b. b ∷ []) (ground arith)
window-update bytes x (suc n) r i h e =
    ap₂ ◌∷◌ (update_ne bytes x (omega arith))
      (window-update bytes x n (u32 (r + 1)) i (omega arith) (omega arith))

-- The tests of the loops, by the number of bytes.
pub is_full_iff : {p : Pipe} → IsValid p → is_full p ≡ (count p == pipe_size)
is_full_iff v = ground arith

pub is_empty_iff : {p : Pipe} → IsValid p → is_empty p ≡ (count p == 0)
is_empty_iff v = ground arith

pub count-put : (p : Pipe) (x : ℕ) → IsValid p → count p < pipe_size → count (put p x) ≡ count p + 1
unfolding put
count-put p x v h = omega arith

pub put-IsValid : (p : Pipe) (x : ℕ) → IsValid p → count p < pipe_size → IsValid (put p x)
unfolding put
put-IsValid p x v h = omega arith

-- A byte that is put goes to the end of the queue.
pub contents-put :
    (p : Pipe) (x : ℕ)
    → IsValid p
    → count p < pipe_size
    → contents (put p x) ≡ contents p ++ (x ∷ [])
unfolding put
contents-put p x v h =
    let one_more : count (put p x) ≡ suc (count p) = omega (arith, count-put p x v h) in
    ap (window (update p.bytes (p.nwrite % pipe_size) x) p.nread) one_more
    ∙ window-update p.bytes x (count p) p.nread (p.nwrite % pipe_size) h (omega arith)

-- `window` matches on `suc`, and the code tests the counters.
window_of_pos :
    (bytes : ℕ → ℕ) (r n : ℕ)
    → 0 < n
    → window bytes r n ≡ bytes (r % pipe_size) ∷ window bytes (u32 (r + 1)) (n - 1)
window_of_pos bytes r zero h = absurd (omega arith)
window_of_pos bytes r (suc n) h = ap (λ k. window bytes r (suc k)) (omega arith)

pub count-get : (p : Pipe) → IsValid p → 0 < count p → count (get p).1 ≡ count p - 1
unfolding get
count-get p v h = omega arith

pub get-IsValid : (p : Pipe) → IsValid p → 0 < count p → IsValid (get p).1
unfolding get
get-IsValid p v h = omega arith

-- The byte that is got comes from the front of the queue.
pub contents-get :
    (p : Pipe) → IsValid p → 0 < count p → contents p ≡ (get p).0 ∷ contents (get p).1
unfolding get
contents-get p v h =
    let one_less : count p - 1 ≡ count (get p).1 = omega (arith, count-get p v h) in
    window_of_pos p.bytes p.nread (count p) h
    ∙ ap (λ k. p.bytes (p.nread % pipe_size) ∷ window p.bytes (u32 (p.nread + 1)) k) one_less
