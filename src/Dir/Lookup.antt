-- ===== src/Dir/Lookup.antt =====
-- dirlookup finds the first entry of a name.
use mathlib.Core.Path.{subst}
use xv.Common.{
  ℕ, zero, suc, ◌+◌, ◌-◌, ◌*◌, ◌/◌, ◌%◌, ◌^◌, ◌≤◌, ◌<◌, min, ◌≡◌, ◌≢◌, refl, sym, ap, ap₂, ◌∙◌,
  arith, ◌⊎◌, inl, inr, Bool, true, false, ◌&&◌, Option, none, some, List, [], ◌∷◌, ◌==◌, ltb, leb,
  if◌then◌else◌, Outcome, ok, ℕ_discrete, dec_lt,
}
use xv.Common.Int.{ℤ, pos, negsuc}
use xv.Strings.{Memory, strncmp}
use xv.Strings.Compare.{text, strncmp_iff}
use xv.Extents.{Inode}
use xv.Fs.Disk.{bsize, Superblock, Blocks}
use xv.Fs.Bmap.{bmap_blocks}
use xv.Fs.Rw.{readi}
use xv.Fs.Reads.{file_byte, with_file, readi_lem}
use xv.Fs.Path.{dirsiz}
use xv.Icache.Layout.{load16}
use xv.Dir.{dirent_size, is_nought, namecmp, look_from}

-- Two fields with the same bytes hold the same string.
text_same :
    (m m' : Memory) (p q n : ℕ)
    → ((i : ℕ) → i < n → m (p + i) ≡ m' (q + i))
    → text m p n ≡ text m' q n
text_same m m' p q zero h = refl
text_same m m' p q (suc n) h =
    let rest =
      text_same m m' (p + 1) (q + 1) n
        (λ i lt. ap m (omega arith) ∙ h (i + 1) (omega arith) ∙ ap m' (omega arith)) in
    let first : m p ≡ m' q = ap m (omega arith) ∙ h 0 (omega arith) ∙ ap m' (omega arith) in
    ap₂ (λ b t. if b == 0 then [] else b ∷ t) first rest

pos-injective : (m n : ℕ) → pos m ≡ pos n → m ≡ n
pos-injective m n h = cc

negsuc_pos : (m n : ℕ) → ¬ (negsuc m ≡ pos n)
negsuc_pos m n h = cc

false-true : ¬ (false ≡ true)
false-true h = cc

is_zero : (n : ℕ) → (n == 0) ≡ true → n ≡ 0
is_zero n h = ground arith

not_zero : (n : ℕ) → (n == 0) ≡ false → n ≢ 0
not_zero n h = ground arith

is_nought_iff : (z : ℤ) → (z ≡ pos 0 → is_nought z ≡ true) × (is_nought z ≡ true → z ≡ pos 0)
is_nought_iff (pos n) = (λ e. ground (arith, pos-injective n 0 e), λ e. ap pos (ground (arith, e)))
is_nought_iff (negsuc n) = (λ e. absurd (negsuc_pos n 0 e), λ e. absurd (false-true e))

module _ (sb : Superblock) (ip : Inode) (disk : Blocks) (at : ℕ → ℕ) (name de : ℕ)
    (wanted : List ℕ) where
  -- the inode number and the name of the entry at an offset of the directory
  abbrev pub inum_at : ℕ → ℕ
  inum_at o = load16 (file_byte disk at) o

  abbrev pub IsNamed : ℕ → Type 0
  IsNamed o = (inum_at o ≢ 0) × (text (file_byte disk at) (o + 2) dirsiz ≡ wanted)

  -- How a search from `off` on ends.
  pub data Looked (off : ℕ) : Outcome (Option (ℕ × ℕ) × Inode × Blocks × Memory) → Type 0 where
    finds :
        (o : ℕ) (mem' : Memory)
        → (off ≤ o) × (o < ip.size) × (o % dirent_size ≡ 0)
        → IsNamed o
        → ((e : ℕ) → off ≤ e → e < o → e % dirent_size ≡ 0 → ¬ IsNamed e)
        → Looked off (ok (some (o, inum_at o), ip, disk, mem'))
    misses :
        (mem' : Memory)
        → ((e : ℕ) → off ≤ e → e < ip.size → e % dirent_size ≡ 0 → ¬ IsNamed e)
        → Looked off (ok (none, ip, disk, mem'))

  -- What a round has read, and the name, as it was.
  record IsRead (off : ℕ) (mem' : Memory) : Type 0 where
    inum : load16 mem' de ≡ inum_at off
    entry : text mem' (de + 2) dirsiz ≡ text (file_byte disk at) (off + 2) dirsiz
    kept : text mem' name dirsiz ≡ wanted

  put_there :
      (off : ℕ) (mem : Memory) (k : ℕ)
      → k < dirent_size
      → with_file disk at mem de off dirent_size (de + k) ≡ file_byte disk at (off + k)
  put_there off mem k lt =
      let test : (leb de (de + k) && ltb (de + k) (de + dirent_size)) ≡ true = ground arith in
      ap (λ b. if b then file_byte disk at (off + ((de + k) - de)) else mem (de + k)) test
      ∙ ap (file_byte disk at) (omega arith)

  left_alone :
      (off : ℕ) (mem : Memory) (j : ℕ)
      → (j < de) ⊎ (de + dirent_size ≤ j)
      → with_file disk at mem de off dirent_size j ≡ mem j
  left_alone off mem j o =
      let test : (leb de j && ltb j (de + dirent_size)) ≡ false = ground (arith, o) in
      ap (λ b. if b then file_byte disk at (off + (j - de)) else mem j) test

  beside :
      (i : ℕ)
      → i < dirsiz
      → (name + dirsiz ≤ de) ⊎ (de + dirent_size ≤ name)
      → (name + i < de) ⊎ (de + dirent_size ≤ name + i)
  beside i lt (inl h) = inl (omega arith)
  beside i lt (inr h) = inr (omega arith)

  IsRead-entry :
      (off : ℕ) (mem : Memory)
      → ((bn : ℕ) → bn * bsize < ip.size → bmap_blocks sb bn ip disk ≡ ok (at bn, ip, disk))
      → (name + dirsiz ≤ de) ⊎ (de + dirent_size ≤ name)
      → text mem name dirsiz ≡ wanted
      → off + dirent_size ≤ ip.size
      → ip.size + dirent_size < 2 ^ 32
      → (mem' : Memory) × (readi sb ip disk mem de off dirent_size
          ≡ ok (some dirent_size, ip, disk, mem'))
        × IsRead off mem'
  IsRead-entry off mem there apart here inside small =
      elim (readi_lem sb ip disk at mem de off dirent_size (omega arith)
        (λ bn lo hi. there bn (ground (arith, hi, inside)))) [
          | inl bad ↦ absurd (omega (arith, bad.0))
          | inr (le, (mem', run, bytes)) ↦
              let whole : min dirent_size (ip.size - off) ≡ dirent_size = omega arith in
              let within : (k : ℕ) → k < dirent_size → mem' (de + k) ≡ file_byte disk at (off + k) =
                λ k lt.
                  bytes (de + k)
                  ∙ ap (λ c. with_file disk at mem de off c (de + k)) whole
                  ∙ put_there off mem k lt in
              let outside : (j : ℕ) → (j < de) ⊎ (de + dirent_size ≤ j) → mem' j ≡ mem j = λ j o.
                bytes j
                ∙ ap (λ c. with_file disk at mem de off c j) whole
                ∙ left_alone off mem j o in
              (
                mem',
                run ∙ ap (λ c. ok (some c, ip, disk, mem')) whole,
                record {
                  inum =
                      ap₂ (λ x y. x + 256 * y)
                        (ap mem' (omega arith)
                          ∙ within 0 (omega arith)
                          ∙ ap (file_byte disk at) (omega arith))
                        (within 1 (omega arith));
                  entry = text_same mem' (file_byte disk at) (de + 2) (off + 2) dirsiz (λ i lt.
                      ap mem' (omega arith)
                      ∙ within (2 + i) (omega arith)
                      ∙ ap (file_byte disk at) (omega arith));
                  kept =
                      text_same mem' mem name name dirsiz
                        (λ i lt. outside (name + i) (beside i lt apart))
                      ∙ here;
                },
              )
        ]

  -- The search goes on past an entry that is not of the name.
  Looked-next :
      (off : ℕ) (o : Outcome (Option (ℕ × ℕ) × Inode × Blocks × Memory))
      → off % dirent_size ≡ 0
      → ¬ IsNamed off
      → Looked (off + dirent_size) o
      → Looked off o
  Looked-next off o al other (finds found mem' (lo, hi, al') named before) =
      finds found mem' (omega arith, hi, al') named
        (λ e ge lt ae. elim (ℕ_discrete e off) [
          | yes same ↦ subst (λ x. ¬ IsNamed x) (sym same) other
          | no differ ↦ before e (omega (arith, differ)) lt ae
        ])
  Looked-next off o al other (misses mem' none_named) = misses mem' (λ e ge lt ae.
      elim (ℕ_discrete e off) [
        | yes same ↦ subst (λ x. ¬ IsNamed x) (sym same) other
        | no differ ↦ none_named e (omega (arith, differ)) lt ae
      ])

  pick :
      (off : ℕ) (a b : Bool) (rest hit : Outcome (Option (ℕ × ℕ) × Inode × Blocks × Memory))
      → (a ≡ true → Looked off rest)
      → (a ≡ false → b ≡ true → Looked off hit)
      → (b ≡ false → Looked off rest)
      → Looked off (if a then rest else (if b then hit else rest))
  pick off true b rest hit f g h = f refl
  pick off false true rest hit f g h = g refl refl
  pick off false false rest hit f g h = h refl

  -- What a round does with the entry that it has read.
  after :
      (off : ℕ) (mem' : Memory) (rest : Outcome (Option (ℕ × ℕ) × Inode × Blocks × Memory))
      → IsRead off mem'
      → off % dirent_size ≡ 0
      → off < ip.size
      → Looked (off + dirent_size) rest
      → Looked off (
          if load16 mem' de == 0
          then rest
          else (if is_nought (strncmp mem' name (de + 2) dirsiz)
              then ok (some (off, load16 mem' de), ip, disk, mem')
              else rest))
  after off mem' rest r al more later =
      let z = strncmp mem' name (de + 2) dirsiz in
      let same = strncmp_iff mem' name (de + 2) dirsiz in
      pick off (load16 mem' de == 0) (is_nought z) rest
        (ok (some (off, load16 mem' de), ip, disk, mem'))
        (λ a. Looked-next off rest al (λ n. n.0 (sym r.inum ∙ is_zero (load16 mem' de) a)) later)
        (λ a b.
          subst (λ n. Looked off (ok (some (off, n), ip, disk, mem'))) (sym r.inum)
            (finds off mem' (omega arith, more, al)
              (
                (λ e. not_zero (load16 mem' de) a (r.inum ∙ e)),
                sym r.entry ∙ sym (same.0 ((is_nought_iff z).1 b)) ∙ r.kept,
              )
              (λ e ge lt ae n. absurd (omega arith))))
        (λ b.
          Looked-next off rest al
            (λ n.
              false-true (sym b ∙ (is_nought_iff z).0 (same.1 (r.kept ∙ sym n.1 ∙ sym r.entry))))
            later)

  look_from-Looked :
      (rounds off : ℕ) (mem : Memory)
      → ((bn : ℕ) → bn * bsize < ip.size → bmap_blocks sb bn ip disk ≡ ok (at bn, ip, disk))
      → (name + dirsiz ≤ de) ⊎ (de + dirent_size ≤ name)
      → ip.size % dirent_size ≡ 0
      → ip.size + dirent_size < 2 ^ 32
      → text mem name dirsiz ≡ wanted
      → off % dirent_size ≡ 0
      → ip.size < off + dirent_size * rounds
      → Looked off (look_from sb rounds name de off ip disk mem)
  unfolding look_from namecmp
  look_from-Looked zero off mem there apart even small here al enough =
      misses mem (λ e ge lt ae. absurd (omega arith))
  look_from-Looked (suc rounds) off mem there apart even small here al enough =
      elim (dec_lt off ip.size) [
        | no past ↦
            let test : ltb off ip.size ≡ false = ground (arith, past) in
            rw test (misses mem (λ e ge lt ae. absurd (omega (arith, past))))
        | yes more ↦
            let (mem', run, r) =
              IsRead-entry off mem there apart here (omega (arith, even, al, more)) small in
            let test : ltb off ip.size ≡ true = ground (arith, more) in
            let next : (off + dirent_size) % 2 ^ 32 ≡ off + dirent_size = omega arith in
            let later : Looked (off + dirent_size)
                (look_from sb rounds name de ((off + dirent_size) % 2 ^ 32) ip disk mem') =
              subst (λ o. Looked (off + dirent_size) (look_from sb rounds name de o ip disk mem'))
                (sym next)
                (look_from-Looked rounds (off + dirent_size) mem' there apart even small r.kept
                  (omega arith) (omega arith)) in
            rw (test, run)
              (after off mem'
                (look_from sb rounds name de ((off + dirent_size) % 2 ^ 32) ip disk mem') r al more
                later)
      ]

  -- The search of dirlookup, for a name beside the local entry, in a directory of whole entries whose
  -- blocks bmap finds without allocating: it does not panic, changes no inode and no block, and gives
  -- the first entry in use that has the name as a string of at most DIRSIZ bytes, with its offset
  -- and its inode number; or there is no such entry.
  pub look_from_lem :
      (mem : Memory)
      → ((bn : ℕ) → bn * bsize < ip.size → bmap_blocks sb bn ip disk ≡ ok (at bn, ip, disk))
      → (name + dirsiz ≤ de) ⊎ (de + dirent_size ≤ name)
      → ip.size % dirent_size ≡ 0
      → ip.size + dirent_size < 2 ^ 32
      → text mem name dirsiz ≡ wanted
      → Looked 0 (look_from sb (ip.size / dirent_size + 1) name de 0 ip disk mem)
  look_from_lem mem there apart even small here =
      look_from-Looked (ip.size / dirent_size + 1) 0 mem there apart even small here (omega arith)
        (omega arith)
