-- ===== src/Icache/Words.antt =====
-- Dinodes in a block: what is stored is loaded again, and nothing but its 64 bytes changes.
use mathlib.Core.Path.{subst}
use xv.Common.{
  ℕ, zero, suc, ◌+◌, ◌*◌, ◌%◌, ◌^◌, ◌≤◌, ◌<◌, ◌≡◌, ◌⊎◌, inl, inr, refl, ap₂, ◌∙◌, arith, List, [],
  ◌∷◌, length, get_or,
}
use xv.Strings.{Memory, store32, load32}
use xv.Vm.Memory.{load32-store32}
use xv.Extents.{ndirect}
use xv.Icache.Layout.{
  naddrs, Dinode, load16, store16, load_words, store_words, load_dinode, store_fields, store_dinode,
}

pub load16-store16 : (d : Memory) (a v : ℕ) → v < 2 ^ 16 → load16 (store16 d a v) a ≡ v
load16-store16 d a v h = ground arith

pub store16_apart : (d : Memory) (a v i : ℕ) → (i < a) ⊎ (a + 2 ≤ i) → store16 d a v i ≡ d i
store16_apart d a v i (inl h) = ground arith
store16_apart d a v i (inr h) = ground arith

store32_apart : (d : Memory) (a v i : ℕ) → (i < a) ⊎ (a + 4 ≤ i) → store32 d a v i ≡ d i
store32_apart d a v i (inl h) = ground arith
store32_apart d a v i (inr h) = ground arith

-- Every word is one.
abbrev pub AreWords : List ℕ → Type 0
AreWords [] = naddrs ≡ naddrs
AreWords (w ∷ ws) = (w < 2 ^ 32) × AreWords ws

pub store_words_apart :
    (d : Memory) (a : ℕ) (ws : List ℕ) (i : ℕ)
    → (i < a) ⊎ (a + 4 * length ws ≤ i)
    → store_words d a ws i ≡ d i
store_words_apart d a [] i h = refl
store_words_apart d a (w ∷ ws) i (inl h) =
    store_words_apart (store32 d a w) (a + 4) ws i (inl (omega arith))
    ∙ store32_apart d a w i (inl h)
store_words_apart d a (w ∷ ws) i (inr h) =
    store_words_apart (store32 d a w) (a + 4) ws i (inr (omega arith))
    ∙ store32_apart d a w i (inr (omega arith))

load_words-store_words :
    (d : Memory) (a : ℕ) (ws : List ℕ)
    → AreWords ws
    → load_words (store_words d a ws) a (length ws) ≡ ws
load_words-store_words d a [] h = refl
load_words-store_words d a (w ∷ ws) h =
    let d' = store_words (store32 d a w) (a + 4) ws in
    let keeps : (i : ℕ) → i < a + 4 → d' i ≡ store32 d a w i =
      λ i lt. store_words_apart (store32 d a w) (a + 4) ws i (inl lt) in
    let first : load32 d' a ≡ w = omega (
      arith,
      keeps a (omega arith),
      keeps (a + 1) (omega arith),
      keeps (a + 2) (omega arith),
      keeps (a + 3) (omega arith),
      load32-store32 d a w h.0,
    ) in
    ap₂ ◌∷◌ first (load_words-store_words (store32 d a w) (a + 4) ws h.1)

-- The fields fit their C types, and `addrs` has the length of the array.
pub record IsDinode (ip : Dinode) : Type 0 where
  pub type : ip.type < 2 ^ 16
  pub major : ip.major < 2 ^ 16
  pub minor : ip.minor < 2 ^ 16
  pub nlink : ip.nlink < 2 ^ 16
  pub size : ip.size < 2 ^ 32
  pub words : AreWords ip.addrs
  pub count : length ip.addrs ≡ naddrs

type-store_fields :
    (d : Memory) (a : ℕ) (ip : Dinode) → ip.type < 2 ^ 16 → load16 (store_fields d a ip) a ≡ ip.type
unfolding store_fields
type-store_fields d a ip h = ground (arith, h)

major-store_fields :
    (d : Memory) (a : ℕ) (ip : Dinode)
    → IsDinode ip
    → load16 (store_fields d a ip) (a + 2) ≡ ip.major
unfolding store_fields
major-store_fields d a ip h = ground (arith, h.major)

minor-store_fields :
    (d : Memory) (a : ℕ) (ip : Dinode)
    → IsDinode ip
    → load16 (store_fields d a ip) (a + 4) ≡ ip.minor
unfolding store_fields
minor-store_fields d a ip h = ground (arith, h.minor)

nlink-store_fields :
    (d : Memory) (a : ℕ) (ip : Dinode)
    → IsDinode ip
    → load16 (store_fields d a ip) (a + 6) ≡ ip.nlink
unfolding store_fields
nlink-store_fields d a ip h = ground (arith, h.nlink)

size-store_fields :
    (d : Memory) (a : ℕ) (ip : Dinode)
    → IsDinode ip
    → load32 (store_fields d a ip) (a + 8) ≡ ip.size
unfolding store_fields
size-store_fields d a ip h = ground (arith, h.size)

store_fields_apart :
    (d : Memory) (a : ℕ) (ip : Dinode) (i : ℕ)
    → (i < a) ⊎ (a + 12 ≤ i)
    → store_fields d a ip i ≡ d i
unfolding store_fields
store_fields_apart d a ip i (inl h) = ground arith
store_fields_apart d a ip i (inr h) = ground arith

load16-store_words :
    (d : Memory) (a : ℕ) (ws : List ℕ) (b : ℕ)
    → b + 2 ≤ a
    → load16 (store_words d a ws) b ≡ load16 d b
load16-store_words d a ws b h =
    ap₂ (λ x y. x + 256 * y) (store_words_apart d a ws b (inl (omega arith)))
      (store_words_apart d a ws (b + 1) (inl (omega arith)))

load32-store_words :
    (d : Memory) (a : ℕ) (ws : List ℕ) (b : ℕ)
    → b + 4 ≤ a
    → load32 (store_words d a ws) b ≡ load32 d b
load32-store_words d a ws b h =
    let keeps : (i : ℕ) → i < a → store_words d a ws i ≡ d i =
      λ i lt. store_words_apart d a ws i (inl lt) in
    omega (
      arith,
      keeps b (omega arith),
      keeps (b + 1) (omega arith),
      keeps (b + 2) (omega arith),
      keeps (b + 3) (omega arith),
    )

Dinode_ext :
    (p q : Dinode)
    → p.type ≡ q.type
    → p.major ≡ q.major
    → p.minor ≡ q.minor
    → p.nlink ≡ q.nlink
    → p.size ≡ q.size
    → p.addrs ≡ q.addrs
    → p ≡ q
Dinode_ext p q a b c d e f = cc

pub load_dinode-store_dinode :
    (d : Memory) (a : ℕ) (ip : Dinode) → IsDinode ip → load_dinode (store_dinode d a ip) a ≡ ip
unfolding load_dinode store_dinode
load_dinode-store_dinode d a ip h =
    let d5 = store_fields d a ip in
    let d6 = store_words d5 (a + 12) ip.addrs in
    let half : (k : ℕ) → k < 11 → load16 d6 (a + k) ≡ load16 d5 (a + k) =
      λ k lt. load16-store_words d5 (a + 12) ip.addrs (a + k) (omega arith) in
    let at_start = load16-store_words d5 (a + 12) ip.addrs a (omega arith) in
    let at_size = load32-store_words d5 (a + 12) ip.addrs (a + 8) (omega arith) in
    let words : load_words d6 (a + 12) naddrs ≡ ip.addrs =
      subst (λ n. load_words d6 (a + 12) n ≡ ip.addrs) h.count
        (load_words-store_words d5 (a + 12) ip.addrs h.words) in
    Dinode_ext (load_dinode d6 a) ip (at_start ∙ type-store_fields d a ip h.type)
      (half 2 (omega arith) ∙ major-store_fields d a ip h)
      (half 4 (omega arith) ∙ minor-store_fields d a ip h)
      (half 6 (omega arith) ∙ nlink-store_fields d a ip h) (at_size ∙ size-store_fields d a ip h)
      words

pub type-store_dinode :
    (d : Memory) (a : ℕ) (ip : Dinode) → ip.type < 2 ^ 16 → load16 (store_dinode d a ip) a ≡ ip.type
unfolding store_dinode
type-store_dinode d a ip h =
    load16-store_words (store_fields d a ip) (a + 12) ip.addrs a (omega arith)
    ∙ type-store_fields d a ip h

-- A byte outside of a dinode and the word after it stays as it was.
pub store_dinode_apart :
    (d : Memory) (a : ℕ) (ip : Dinode) (i : ℕ)
    → length ip.addrs ≡ naddrs
    → (i < a) ⊎ (a + 64 ≤ i)
    → store_dinode d a ip i ≡ d i
unfolding store_dinode
store_dinode_apart d a ip i n (inl h) =
    store_words_apart (store_fields d a ip) (a + 12) ip.addrs i (inl (omega arith))
    ∙ store_fields_apart d a ip i (inl h)
store_dinode_apart d a ip i n (inr h) =
    store_words_apart (store_fields d a ip) (a + 12) ip.addrs i (inr (omega (arith, n)))
    ∙ store_fields_apart d a ip i (inr (omega arith))

half_of_word :
    (d : Memory) (a : ℕ) (ws : List ℕ) (k : ℕ)
    → k < length ws
    → load16 (store_words d a ws) (a + 4 * k) ≡ get_or ws k 0 % 2 ^ 16
half_of_word d a [] k h = absurd (omega arith)
half_of_word d a (w ∷ ws) zero h =
    let keeps : (i : ℕ) → i < a + 4 → store_words (store32 d a w) (a + 4) ws i ≡ store32 d a w i =
      λ i lt. store_words_apart (store32 d a w) (a + 4) ws i (inl lt) in
    ground (arith, keeps a (omega arith), keeps (a + 1) (omega arith))
half_of_word d a (w ∷ ws) (suc k) h =
    subst (λ b. load16 (store_words (store32 d a w) (a + 4) ws) b ≡ get_or ws k 0 % 2 ^ 16)
      (omega arith) (half_of_word (store32 d a w) (a + 4) ws k (omega arith))

-- The last word of the copy lies where the next dinode has its `type` and `major`.
pub load16-store_dinode_overrun :
    (d : Memory) (a : ℕ) (ip : Dinode)
    → length ip.addrs ≡ naddrs
    → load16 (store_dinode d a ip) (a + 60) ≡ get_or ip.addrs (ndirect + 1) 0 % 2 ^ 16
unfolding store_dinode
load16-store_dinode_overrun d a ip n =
    subst
      (λ b.
        load16 (store_words (store_fields d a ip) (a + 12) ip.addrs) b
        ≡ get_or ip.addrs (ndirect + 1) 0 % 2 ^ 16)
      (omega arith)
      (half_of_word (store_fields d a ip) (a + 12) ip.addrs (ndirect + 1) (omega (arith, n)))
