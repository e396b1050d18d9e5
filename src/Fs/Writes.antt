-- ===== src/Fs/Writes.antt =====
-- writei writes the bytes of the file one for one, whatever blocks they are in.
use xv.Common.{
  ℕ, zero, suc, ◌+◌, ◌-◌, ◌*◌, ◌/◌, ◌%◌, ◌^◌, ◌≤◌, ◌<◌, min, ◌≡◌, ◌≢◌, refl, sym, ap, ◌∙◌, arith,
  ◌⊎◌, inl, inr, true, false, Bool-cases, ◌&&◌, none, some, ◌==◌, ltb, leb, Bool, if◌then◌else◌,
  ℕ_discrete, update, update_self, update_ne, ok,
}
use xv.Strings.{Memory}
use xv.Extents.{Inode}
use xv.Fs.Disk.{bsize, Superblock, Blocks}
use xv.Fs.Bmap.{bmap_blocks}
use xv.Icache.Layout.{Dinode, iblock, dinode_at, load_dinode, store_dinode, write_dinode}
use xv.Icache.Words.{IsDinode, load_dinode-store_dinode, store_dinode_apart}
use xv.Fs.Rw.{move, write_from, max_file, inode_of, save_size, writei}
use xv.Fs.Reads.{file_byte}

-- Byte `i` of the file after a write of `n` bytes at offset `off`.
abbrev pub written : Blocks → (at : ℕ → ℕ) → Memory → (src off n i : ℕ) → ℕ
written disk at mem src off n i =
    if leb off i && ltb i (off + n) then mem (src + (i - off)) else file_byte disk at i

module _ (at : ℕ → ℕ) (low high : ℕ) where
  -- The blocks of the file that hold its bytes from `low` on up to `high`.
  abbrev pub IsWithin : ℕ → Type 0
  IsWithin bn = (low / bsize ≤ bn) × (bn * bsize < high)

  abbrev pub Same : Blocks → Blocks → Type 0
  Same disk disk' = (b : ℕ) → ((bn : ℕ) → IsWithin bn → at bn ≢ b) → disk' b ≡ disk b

  -- A write of a part that lies in one block.
  part_byte :
      (disk : Blocks) (mem : Memory) (src off m : ℕ)
      → ((a b : ℕ) → IsWithin a → IsWithin b → at a ≡ at b → a ≡ b)
      → IsWithin (off / bsize)
      → m ≤ bsize - off % bsize
      → (i : ℕ) → IsWithin (i / bsize)
      → file_byte
          (update disk (at (off / bsize)) (move (disk (at (off / bsize))) (off % bsize) mem src m))
          at
          i
        ≡ written disk at mem src off m i
  part_byte disk mem src off m injective here small i there =
      elim (ℕ_discrete (off / bsize) (i / bsize)) [
        | yes same ↦
            let this : file_byte
                  (update disk (at (off / bsize))
                    (move (disk (at (off / bsize))) (off % bsize) mem src m))
                  at i
                ≡ move (disk (at (off / bsize))) (off % bsize) mem src m (i % bsize) =
              ap (λ d. d (i % bsize))
                (ap
                    (λ bn.
                      update disk (at (off / bsize))
                        (move (disk (at (off / bsize))) (off % bsize) mem src m) (at bn))
                    (sym same)
                  ∙ update_self disk (at (off / bsize)) _) in
            this ∙ elim (Bool-cases (leb off i && ltb i (off + m))) [
              | inl inside ↦
                  let within : (leb (off % bsize) (i % bsize) && ltb (i % bsize) (off % bsize + m))
                      ≡ true =
                    ground (arith, inside, same) in
                  let place : src + (i % bsize - off % bsize) ≡ src + (i - off) =
                    ground (arith, inside, same) in
                  rw within (rw inside (ap mem place))
              | inr outside ↦
                  let without : (leb (off % bsize) (i % bsize) && ltb (i % bsize) (off % bsize + m))
                      ≡ false =
                    ground (arith, outside, same) in
                  rw without (rw outside (ap (λ bn. disk (at bn) (i % bsize)) same))
            ]
        | no differ ↦
            let outside : (leb off i && ltb i (off + m)) ≡ false = ground (arith, differ, small) in
            rw outside (
              ap (λ d. d (i % bsize)) (update_ne disk _ (λ e. differ (injective _ _ here there e))))
      ]

  module _ (sb : Superblock) (ip : Inode) (disk : Blocks) (mem : Memory) (short : high < 2 ^ 32)
      (injective : (a b : ℕ) → IsWithin a → IsWithin b → at a ≡ at b → a ≡ b)
      (there : (disk' : Blocks)
        → Same disk disk'
        → (bn : ℕ) → IsWithin bn
        → bmap_blocks sb bn ip disk' ≡ ok (at bn, ip, disk')) where
    write_from_lem :
        (rounds left off src : ℕ) (now : Blocks)
        → Same disk now
        → left ≤ rounds
        → low ≤ off
        → off + left ≤ high
        → (disk' : Blocks) × (write_from sb rounds left off src mem ip now ≡ ok (ip, disk'))
          × Same disk disk'
          × ((i : ℕ)
              → IsWithin (i / bsize)
              → file_byte disk' at i ≡ written now at mem src off left i)
    unfolding write_from
    write_from_lem zero left off src now same enough from to = (
      now,
      refl,
      same,
      λ i w.
          let none_left : (leb off i && ltb i (off + left)) ≡ false = ground (arith, enough) in
          rw none_left refl,
    )
    write_from_lem (suc rounds) left off src now same enough from to =
        elim (Bool-cases (left == 0)) [
          | inl done ↦ (
            now,
            rw done refl,
            same,
            λ i w.
                let none_left : (leb off i && ltb i (off + left)) ≡ false = ground (arith, done) in
                rw none_left refl,
          )
          | inr more ↦
              let m = min left (bsize - off % bsize) in
              let here : IsWithin (off / bsize) = (omega (arith, from), ground (arith, more, to)) in
              let part : Blocks =
                update now (at (off / bsize))
                  (move (now (at (off / bsize))) (off % bsize) mem src m) in
              let next : (off + m) % 2 ^ 32 ≡ off + m = ground (arith, short, to) in
              let rest =
                write_from_lem rounds (left - m) (off + m) (src + m) part
                  (λ b away. update_ne now _ (away (off / bsize) here) ∙ same b away)
                  (ground (arith, more, enough)) (omega (arith, from)) (ground (arith, more, to)) in
              (
                rest.0,
                rw more (
                    rw (there now same (off / bsize) here, write_from)
                      (ap (λ o. write_from sb rounds (left - m) o (src + m) mem ip part) next
                        ∙ rest.1)),
                rest.2,
                λ i w.
                    rest.3 i w
                    ∙ joined left off src m i now part (ground arith)
                        (part_byte now mem src off m injective here (ground arith) i w),
              )
        ]
      where
        joined :
            (left off src m i : ℕ) (now part : Blocks)
            → m ≤ left
            → file_byte part at i ≡ written now at mem src off m i
            → written part at mem (src + m) (off + m) (left - m) i
              ≡ written now at mem src off left i
        joined left off src m i now part le e =
            elim (Bool-cases (leb (off + m) i && ltb i (off + m + (left - m)))) [
              | inl late ↦
                  let inside : (leb off i && ltb i (off + left)) ≡ true =
                    ground (arith, late, le) in
                  let place : src + m + (i - (off + m)) ≡ src + (i - off) = ground (arith, late) in
                  rw late (rw inside (ap mem place))
              | inr not_late ↦ rw not_late (
                  e ∙ elim (Bool-cases (leb off i && ltb i (off + m))) [
                    | inl early ↦
                        let inside : (leb off i && ltb i (off + left)) ≡ true =
                          ground (arith, early, le) in
                        rw early (rw inside refl)
                    | inr not_early ↦
                        let outside : (leb off i && ltb i (off + left)) ≡ false =
                          ground (arith, not_early, not_late, le) in
                        rw not_early (rw outside refl)
                  ])
            ]

-- The size of the file after a write.
abbrev pub new_size : (size off n : ℕ) → ℕ
new_size size off n = if ltb 0 n && ltb size (off + n) then off + n else size

-- The block of the inode from before to after a write that leaves the copy `d'`.
pub record IsSaved (sb : Superblock) (inum : ℕ) (d d' : Dinode) (disk disk' : Blocks) : Type 0 where
  -- the dinode is written just when the file has grown
  pub kept : d'.size ≡ d.size → disk' (iblock sb inum) ≡ disk (iblock sb inum)
  pub loaded : d'.size ≢ d.size → load_dinode (disk' (iblock sb inum)) (dinode_at inum) ≡ d'
  pub beside :
      (i : ℕ)
      → (i < dinode_at inum) ⊎ (dinode_at inum + 64 ≤ i)
      → disk' (iblock sb inum) i ≡ disk (iblock sb inum) i

-- What save_size does, by whether the write has passed the end of the file.
save_by :
    (sb : Superblock) (inum off n : ℕ) (d : Dinode) (disk : Blocks) (b : Bool)
    → off + n < 2 ^ 32
    → (ltb 0 n && ltb d.size (off + n)) ≡ b
    → save_size sb inum off n d (inode_of d) disk ≡ (
        if b
        then (record d { size = off + n }, write_dinode sb inum (record d { size = off + n }) disk)
        else (d, disk))
unfolding save_size
save_by sb inum off n d disk b small h =
    ap
      (λ x.
        if ltb 0 n && ltb d.size x
        then (record d { size = x }, write_dinode sb inum (record d { size = x }) disk)
        else (d, disk))
      (the_same (off + n) small)
    ∙ ap
        (λ c.
          if c
          then (
            record d { size = off + n },
            write_dinode sb inum (record d { size = off + n }) disk,
          )
          else (d, disk))
        h
  where
    the_same : (m : ℕ) → m < 2 ^ 32 → m % 2 ^ 32 ≡ m
    the_same m lt = omega arith

write_dinode_own :
    (sb : Superblock) (inum : ℕ) (d : Dinode) (disk : Blocks)
    → write_dinode sb inum d disk (iblock sb inum)
      ≡ store_dinode (disk (iblock sb inum)) (dinode_at inum) d
unfolding write_dinode
write_dinode_own sb inum d disk = ground arith

write_dinode_other :
    (sb : Superblock) (inum : ℕ) (d : Dinode) (disk : Blocks) (b : ℕ)
    → b ≢ iblock sb inum
    → write_dinode sb inum d disk b ≡ disk b
unfolding write_dinode
write_dinode_other sb inum d disk b h = ground (arith, h)

save_size_lem :
    (sb : Superblock) (inum off n : ℕ) (d : Dinode) (disk now : Blocks)
    → off + n < 2 ^ 32
    → IsDinode d
    → now (iblock sb inum) ≡ disk (iblock sb inum)
    → (disk' : Blocks) × (save_size sb inum off n d (inode_of d) now
        ≡ (record d { size = new_size d.size off n }, disk'))
      × IsSaved sb inum d (record d { size = new_size d.size off n }) disk disk'
      × ((b : ℕ) → b ≢ iblock sb inum → disk' b ≡ now b)
save_size_lem sb inum off n d disk now small fits same =
    elim (Bool-cases (ltb 0 n && ltb d.size (off + n))) [
      | inr h ↦
          let size : new_size d.size off n ≡ d.size = ap (λ b. if b then off + n else d.size) h in
          (
            now,
            save_by sb inum off n d now false small h
                ∙ ap (λ s. (record d { size = s }, now)) (sym size),
            record {
              kept = λ e. same;
              loaded = λ ne. absurd (ne size);
              beside = λ i o. ap (λ f. f i) same;
            },
            λ b ne. refl,
          )
      | inl h ↦
          let size : new_size d.size off n ≡ off + n = ap (λ b. if b then off + n else d.size) h in
          let d' : Dinode = record d { size = off + n } in
          let own = write_dinode_own sb inum d' now in
          let ok' : IsDinode d' = record {
            type = fits.type;
            major = fits.major;
            minor = fits.minor;
            nlink = fits.nlink;
            size = small;
            words = fits.words;
            count = fits.count;
          } in
          (
            write_dinode sb inum d' now,
            save_by sb inum off n d now true small h
                ∙ ap (λ s. (record d { size = s }, write_dinode sb inum d' now)) (sym size),
            record {
              kept = λ e. absurd (grows d.size off n h (sym size ∙ e));
              loaded = λ ne.
                  ap (λ f. load_dinode f (dinode_at inum)) own
                  ∙ load_dinode-store_dinode (now (iblock sb inum)) (dinode_at inum) d' ok'
                  ∙ ap (λ s. record d { size = s }) (sym size);
              beside = λ i o.
                  ap (λ f. f i) own
                  ∙ store_dinode_apart (now (iblock sb inum)) (dinode_at inum) d' i fits.count o
                  ∙ ap (λ f. f i) same;
            },
            λ b ne. write_dinode_other sb inum d' now b ne,
          )
    ]
  where
    grows : (size off n : ℕ) → (ltb 0 n && ltb size (off + n)) ≡ true → off + n ≢ size
    grows size off n h = ground (arith, h)

-- Where the range does not pass 2 ^ 32, its blocks are different blocks of the disk and none is that
-- of the inode, bmap finds them and allocates none, whatever they hold, and the fields of the inode
-- fit their C types: writei fails past the greatest size of a file; else it writes all n bytes, each
-- to its place in its block, and leaves the other bytes of these blocks as they are. Where the range
-- passes the end of the file it makes the file longer, and the dinode on disk is then the inode
-- with the new size, with all bytes but its 64 kept in its block; else that block stays. Every
-- other block stays as it is.
pub writei_lem :
    (sb : Superblock) (inum : ℕ) (d : Dinode) (disk : Blocks) (at : ℕ → ℕ) (mem : Memory)
    (src off n : ℕ)
    → off + n < 2 ^ 32
    → IsDinode d
    → ((a b : ℕ) → IsWithin at off (off + n) a → IsWithin at off (off + n) b → at a ≡ at b → a ≡ b)
    → ((bn : ℕ) → IsWithin at off (off + n) bn → at bn ≢ iblock sb inum)
    → ((disk' : Blocks)
        → Same at off (off + n) disk disk'
        → (bn : ℕ) → IsWithin at off (off + n) bn
        → bmap_blocks sb bn (inode_of d) disk' ≡ ok (at bn, inode_of d, disk'))
    → ((max_file * bsize < off + n) × (writei sb inum d disk mem src off n ≡ ok (none, d, disk)))
      ⊎ ((off + n ≤ max_file * bsize)
          × ((disk' : Blocks) × (writei sb inum d disk mem src off n
                ≡ ok (some n, record d { size = new_size d.size off n }, disk'))
              × IsSaved sb inum d (record d { size = new_size d.size off n }) disk disk'
              × ((b : ℕ)
                  → ((bn : ℕ) → IsWithin at off (off + n) bn → at bn ≢ b)
                  → b ≢ iblock sb inum
                  → disk' b ≡ disk b)
              × ((i : ℕ)
                  → IsWithin at off (off + n) (i / bsize)
                  → file_byte disk' at i ≡ written disk at mem src off n i)))
unfolding writei
writei_lem sb inum d disk at mem src off n small fits injective apart there =
    elim (Bool-cases (ltb (max_file * bsize) ((off + n) % 2 ^ 32))) [
      | inl far ↦ inl (ground (arith, far, small), rw far refl)
      | inr near ↦
          let r =
            write_from_lem at off (off + n) sb (inode_of d) disk mem small injective there n n off
              src disk (λ b away. refl) (omega arith) (omega arith) (omega arith) in
          let s = save_size_lem sb inum off n d disk r.0 small fits (r.2 (iblock sb inum) apart) in
          inr (
            ground (arith, near, small),
            (
              s.0,
              rw near (rw (r.1, writei) (ap (λ (x : Dinode × Blocks). ok (some n, x.0, x.1)) s.1)),
              s.2,
              (λ b away ne. s.3 b ne ∙ r.2 b away),
              (λ i w.
                  ap (λ f. f (i % bsize)) (s.3 (at (i / bsize)) (apart (i / bsize) w)) ∙ r.3 i w),
            ),
          )
    ]
