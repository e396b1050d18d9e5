-- ===== src/Fs/Reads.antt =====
-- readi reads the bytes of the file one for one, whatever blocks they are in.
use xv.Common.{
  ℕ, zero, suc, ◌+◌, ◌-◌, ◌*◌, ◌/◌, ◌%◌, ◌^◌, ◌≤◌, ◌<◌, min, ◌≡◌, refl, ap, ap₂, ◌∙◌, arith, ◌⊎◌,
  inl, inr, true, false, Bool-cases, ◌&&◌, ◌||◌, none, some, ◌==◌, ltb, leb, if◌then◌else◌, ok,
}
use xv.Strings.{Memory}
use xv.Extents.{Inode}
use xv.Fs.Disk.{bsize, Superblock, Blocks}
use xv.Fs.Bmap.{bmap_blocks}
use xv.Fs.Rw.{move, read_from, clip, readi}

-- Byte `i` of a file whose block `bn` is the block `at bn` of the disk.
abbrev pub file_byte : Blocks → (at : ℕ → ℕ) → (i : ℕ) → ℕ
file_byte disk at i = disk (at (i / bsize)) (i % bsize)

-- A memory with the `n` bytes of the file from `off` on put at `dst`.
abbrev pub with_file : Blocks → (at : ℕ → ℕ) → Memory → (dst off n : ℕ) → Memory
with_file disk at mem dst off n j =
    if leb dst j && ltb j (dst + n) then file_byte disk at (off + (j - dst)) else mem j

module _ (sb : Superblock) (ip : Inode) (disk : Blocks) (at : ℕ → ℕ) where
  -- A part that lies in one block, and then the rest.
  in_block :
      (off d : ℕ)
      → d < bsize - off % bsize
      → disk (at (off / bsize)) (off % bsize + d) ≡ file_byte disk at (off + d)
  in_block off d h =
      let block : off / bsize ≡ (off + d) / bsize = omega arith in
      let offset : off % bsize + d ≡ (off + d) % bsize = omega arith in
      ap₂ (λ b i. disk (at b) i) block offset

  step_bytes :
      (left off dst m : ℕ) (mem mem' : Memory)
      → m ≡ min left (bsize - off % bsize)
      → ((j : ℕ)
          → mem' j
            ≡ with_file disk at
                (move mem dst (disk (at (off / bsize))) (off % bsize) m)
                (dst + m)
                (off + m)
                (left - m)
                j)
      → (j : ℕ) → mem' j ≡ with_file disk at mem dst off left j
  step_bytes left off dst m mem mem' e h j =
      h j ∙ elim (Bool-cases (leb dst j && ltb j (dst + m))) [
        | inl first ↦
            let before : (leb (dst + m) j && ltb j (dst + m + (left - m))) ≡ false =
              ground (arith, first) in
            let inside : (leb dst j && ltb j (dst + left)) ≡ true = ground (arith, first, e) in
            rw before (rw first (rw inside (in_block off (j - dst) (ground (arith, first, e)))))
        | inr later ↦ elim (Bool-cases (leb (dst + m) j && ltb j (dst + m + (left - m)))) [
          | inl rest ↦
              let inside : (leb dst j && ltb j (dst + left)) ≡ true = ground (arith, rest, e) in
              let same : off + m + (j - (dst + m)) ≡ off + (j - dst) = ground (arith, rest) in
              rw rest (rw inside (ap (file_byte disk at) same))
          | inr none_left ↦
              let outside : (leb dst j && ltb j (dst + left)) ≡ false =
                ground (arith, later, none_left, e) in
              rw none_left (rw later (rw outside refl))
        ]
      ]

  -- The blocks of the `n` bytes from `off` on are there.
  abbrev IsThere : (off n : ℕ) → Type 0
  IsThere off n =
      (bn : ℕ)
      → off / bsize ≤ bn
      → bn * bsize < off + n
      → bmap_blocks sb bn ip disk ≡ ok (at bn, ip, disk)

  read_from-IsThere :
      (rounds left off dst : ℕ) (mem : Memory)
      → left ≤ rounds
      → IsThere off left
      → (mem' : Memory) × (read_from sb rounds left off dst ip disk mem ≡ ok (ip, disk, mem'))
        × ((j : ℕ) → mem' j ≡ with_file disk at mem dst off left j)
  unfolding read_from
  read_from-IsThere zero left off dst mem enough there = (
    mem,
    refl,
    λ j.
        let outside : (leb dst j && ltb j (dst + left)) ≡ false = ground (arith, enough) in
        rw outside refl,
  )
  read_from-IsThere (suc rounds) left off dst mem enough there = elim (Bool-cases (left == 0)) [
    | inl done ↦ (
      mem,
      rw done refl,
      λ j.
          let outside : (leb dst j && ltb j (dst + left)) ≡ false = ground (arith, done) in
          rw outside refl,
    )
    | inr more ↦
        let m = min left (bsize - off % bsize) in
        let now = there (off / bsize) (omega arith) (ground (arith, more)) in
        let rest =
          read_from-IsThere rounds (left - m) (off + m) (dst + m)
            (move mem dst (disk (at (off / bsize))) (off % bsize) m) (ground (arith, more, enough))
            (λ bn low high. there bn (omega (arith, low)) (omega (arith, high))) in
        (
          rest.0,
          rw more (rw (now, read_from) rest.1),
          step_bytes left off dst m mem rest.0 refl rest.2,
        )
  ]

  -- Where the end of the range does not pass 2 ^ 32, and bmap finds the blocks of the bytes to be read
  -- and allocates none: readi fails for an offset past the end of the file; else it reads n bytes, or
  -- those up to the end of the file, to dst, each from its place in its block, and changes nothing else.
  pub readi_lem :
      (mem : Memory) (dst off n : ℕ)
      → off + n < 2 ^ 32
      → IsThere off (clip ip.size off n)
      → ((ip.size < off) × (readi sb ip disk mem dst off n ≡ ok (none, ip, disk, mem)))
        ⊎ ((off ≤ ip.size)
            × ((mem' : Memory) × (readi sb ip disk mem dst off n
                  ≡ ok (some (min n (ip.size - off)), ip, disk, mem'))
                × ((j : ℕ) → mem' j ≡ with_file disk at mem dst off (min n (ip.size - off)) j)))
  unfolding readi
  readi_lem mem dst off n small there =
      elim (Bool-cases (ltb ip.size off || ltb ((off + n) % 2 ^ 32) off)) [
        | inl bad ↦ inl (ground (arith, bad, small), rw bad refl)
        | inr good ↦
            let count : clip ip.size off n ≡ min n (ip.size - off) = ground (arith, good, small) in
            let r =
              read_from-IsThere (clip ip.size off n) (clip ip.size off n) off dst mem (omega arith)
                there in
            inr (
              ground (arith, good),
              (
                r.0,
                rw good (rw (r.1, readi) (ap (λ c. ok (some c, ip, disk, r.0)) count)),
                (λ j. r.2 j ∙ ap (λ c. with_file disk at mem dst off c j) count),
              ),
            )
      ]
