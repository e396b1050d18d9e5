-- ===== src/Icache/Release.antt =====
-- iput drops a reference, and with the last one it frees an inode without links.
use mathlib.Core.Path.{subst}
use xv.Common.{
  ◌^◌, ◌<◌, ◌≡◌, ◌≢◌, ◌⊎◌, refl, sym, ap, ◌∙◌, arith, Bool, true, false, ◌&&◌, ◌==◌, if◌then◌else◌,
  Outcome, ok, panic, ◌>>=◌, ok-injective,
}
use xv.Fs.Disk.{Superblock, Blocks}
use xv.Fs.Bmap.{itrunc}
use xv.Icache.{Entry, one_less, iupdate, truncate, iput}
use xv.Icache.Layout.{iblock, dinode_at, type_at}
use xv.Icache.Words.{type-store_dinode}
use xv.Icache.Update.{own_block}
use xv.Icache.Alloc.{type_on}

-- The outcomes of iput.
pub data Released (sb : Superblock) (e : Entry) (disk : Blocks)
    : Outcome (Entry × Blocks) → Type 0 where
  -- the file lives on: the disk stays as it was
  drops :
      (e.valid ≡ false) ⊎ ((e.copy.nlink ≢ 0) ⊎ (e.ref ≢ 1))
      → Released sb e disk (ok (one_less e, disk))
  -- the last reference to a file without links: its inode is free on disk, and so is the entry
  frees :
      (e' : Entry) (disk' : Blocks)
      → e.valid ≡ true
      → e.copy.nlink ≡ 0
      → e.ref ≡ 1
      → type_on sb disk' e.inum ≡ 0
      → (e'.ref ≡ 0) × (e'.valid ≡ false) × (e'.inum ≡ e.inum)
      → Released sb e disk (ok (e', disk'))
  -- bfree panics: a block of the file is free already
  breaks : truncate sb e disk ≡ panic → Released sb e disk panic

bind-ok {ℓ κ} :
    {A : Type ℓ} {B : Type κ} (o : Outcome A) (f : A → Outcome B) (r : B)
    → (o >>= f) ≡ ok r
    → (a : A) × (f a ≡ ok r)
bind-ok (ok a) f r h = (a, h)
bind-ok panic f r h = absurd cc

-- truncate changes the copy and nothing else in the entry.
truncate-entry :
    (sb : Superblock) (e : Entry) (disk : Blocks) (r : Entry × Blocks)
    → truncate sb e disk ≡ ok r
    → (r.0.inum ≡ e.inum) × (r.0.ref ≡ e.ref)
unfolding truncate
truncate-entry sb e disk r h =
    let last =
      bind-ok (itrunc sb (record { size = e.copy.size; addrs = e.copy.addrs }) disk)
        (λ (file, disk').
          let e' = record e { copy = record e.copy { size = file.size; addrs = file.addrs } } in
          ok (e', iupdate sb e' disk'))
        r h in
    let same = ok-injective _ r last.1 in
    (ap (λ x. x.0.inum) (sym same), ap (λ x. x.0.ref) (sym same))

type_on-iupdate :
    (sb : Superblock) (e : Entry) (disk : Blocks)
    → e.copy.type < 2 ^ 16
    → type_on sb (iupdate sb e disk) e.inum ≡ e.copy.type
type_on-iupdate sb e disk h =
    ap (λ d. type_at d e.inum) (own_block sb e disk (iblock sb e.inum) refl)
    ∙ type-store_dinode (disk (iblock sb e.inum)) (dinode_at e.inum) e.copy h

is_last_iff :
    (e : Entry)
    → (e.valid && (e.copy.nlink == 0) && (e.ref == 1)) ≡ true
    → (e.valid ≡ true) × (e.copy.nlink ≡ 0) × (e.ref ≡ 1)
is_last_iff e h = ground arith

lives_on :
    (e : Entry)
    → (e.valid && (e.copy.nlink == 0) && (e.ref == 1)) ≡ false
    → (e.valid ≡ false) ⊎ ((e.copy.nlink ≢ 0) ⊎ (e.ref ≢ 1))
lives_on e h = ground arith

free_last :
    (sb : Superblock) (e : Entry) (disk : Blocks) (o : Outcome (Entry × Blocks))
    → truncate sb e disk ≡ o
    → (e.valid ≡ true) × (e.copy.nlink ≡ 0) × (e.ref ≡ 1)
    → Released sb e disk (
        o >>= λ (e', disk').
        let e'' = record e' { copy = record e'.copy { type = 0 } } in
        ok (one_less (record e'' { valid = false }), iupdate sb e'' disk'))
free_last sb e disk panic h last = breaks h
free_last sb e disk (ok (e', disk')) h last =
    let kept = truncate-entry sb e disk (e', disk') h in
    let e'' = record e' { copy = record e'.copy { type = 0 } } in
    frees (one_less (record e'' { valid = false })) (iupdate sb e'' disk') last.0 last.1 last.2
      (subst (λ n. type_on sb (iupdate sb e'' disk') n ≡ 0) kept.0
        (type_on-iupdate sb e'' disk' (ground arith)))
      (omega (arith, kept.1, last.2), refl, kept.0)

-- iput, on every branch: unless the entry has been read, its file has no links and this is the last
-- reference, it drops the reference and leaves the disk alone; else the inode becomes free on
-- disk, the entry has no reference and is not valid, and nothing is returned only where freeing a
-- block of the file panics.
pub iput-Released :
    (sb : Superblock) (e : Entry) (disk : Blocks) → Released sb e disk (iput sb e disk)
unfolding iput
iput-Released sb e disk = choose (e.valid && (e.copy.nlink == 0) && (e.ref == 1)) refl
  where
    choose :
        (b : Bool)
        → (e.valid && (e.copy.nlink == 0) && (e.ref == 1)) ≡ b
        → Released sb e disk (
            if b
            then (truncate sb e disk >>= λ (e', disk').
                let e'' = record e' { copy = record e'.copy { type = 0 } } in
                ok (one_less (record e'' { valid = false }), iupdate sb e'' disk'))
            else ok (one_less e, disk))
    choose true m = free_last sb e disk (truncate sb e disk) refl (is_last_iff e m)
    choose false m = drops (lives_on e m)
