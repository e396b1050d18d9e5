-- ===== src/Icache/Tests.antt =====
-- A disk with one file, and a table of two entries.
use mathlib.Core.Path.{subst}
use xv.Common.{zero, suc, sym, ◌≡◌, refl, arith, true, false, some, [], ◌∷◌, get_elem?, ok}
use xv.Fs.Disk.{Superblock, Blocks}
use xv.Icache.{Entry, in_use, iget, iupdate, ilock, iput, ialloc_from}
use xv.Icache.Layout.{Dinode, iblock, type_at}
use xv.Icache.Words.{IsDinode}
use xv.Icache.Update.{ilock-iupdate, type_at-iupdate}
use xv.Icache.Scan.{some-injective}
use xv.Icache.Table.{IsTable, Got, iget-Got}
use xv.Icache.Alloc.{Claimed, ialloc_from-Claimed}
use xv.Icache.Release.{Released, iput-Released}

abbrev layout : Superblock
layout = record { size = 1000; ninodes = 200; inodestart = 32; bmapstart = 58 }

abbrev blank : Blocks
blank b i = 0

abbrev file : Dinode
file = record {
  type = 2;
  major = 0;
  minor = 0;
  nlink = 1;
  size = 700;
  addrs = 60 ∷ 61 ∷ 0 ∷ 0 ∷ 0 ∷ 0 ∷ 0 ∷ 0 ∷ 0 ∷ 0 ∷ 0 ∷ 0 ∷ 0 ∷ [];
}

abbrev held : Entry
held = record { dev = 1; inum = 3; ref = 1; locked = false; valid = true; copy = file }

abbrev unread : Entry
unread = record held { valid = false }

abbrev unused : Entry
unused = record held { dev = 0; inum = 0; ref = 0; valid = false }

file-IsDinode : IsDinode file
file-IsDinode = record {
  type = ground arith;
  major = ground arith;
  minor = ground arith;
  nlink = ground arith;
  size = ground arith;
  words = (
    ground arith,
    (
      ground arith,
      (
        ground arith,
        (
          ground arith,
          (
            ground arith,
            (
              ground arith,
              (
                ground arith,
                (
                  ground arith,
                  (
                    ground arith,
                    (ground arith, (ground arith, (ground arith, (ground arith, refl)))),
                  ),
                ),
              ),
            ),
          ),
        ),
      ),
    ),
  );
  count = refl;
}

not_in_use : (x : Entry) → some unused ≡ some x → ¬ (in_use x ≡ true)
not_in_use x g u =
    absurd (false-true (subst (λ y. in_use y ≡ true) (sym (some-injective unused x g)) u))
  where
    false-true : ¬ (false ≡ true)
    false-true h = cc

beyond : (x : Entry) → ¬ (get_elem? {A = Entry} [] 0 ≡ some x)
beyond x h = cc

two-IsTable : IsTable (held ∷ unused ∷ [])
two-IsTable zero zero a b ga gb u f = refl
two-IsTable (suc zero) (suc zero) a b ga gb u f = refl
two-IsTable zero (suc zero) a b ga gb u f = absurd (not_in_use b gb f.used)
two-IsTable (suc zero) zero a b ga gb u f = absurd (not_in_use a ga u)
two-IsTable (suc (suc i)) j a b ga gb u f = absurd (beyond a ga)
two-IsTable i (suc (suc j)) a b ga gb u f = absurd (beyond b gb)

ilock-iupdate_example :
    ilock layout (some unread) (iupdate layout held blank)
    ≡ ok (record unread { locked = true; valid = true; copy = file })
ilock-iupdate_example =
    ilock-iupdate layout held unread blank file-IsDinode refl refl refl
      (λ e. absurd (omega (arith, e)))

type_at-iupdate_example : type_at (iupdate layout held blank (iblock layout 4)) 4 ≡ 0
type_at-iupdate_example = type_at-iupdate layout held blank refl (ground arith)

iget-Got_example : Got 1 5 (held ∷ unused ∷ []) (iget 1 5 (held ∷ unused ∷ []))
iget-Got_example = iget-Got 1 5 (held ∷ unused ∷ []) two-IsTable

ialloc_from-Claimed_example : Claimed layout 2 199 1 blank (ialloc_from layout 2 199 1 blank)
ialloc_from-Claimed_example = ialloc_from-Claimed layout 2 199 1 blank (ground arith)

iput-Released_example : Released layout held blank (iput layout held blank)
iput-Released_example = iput-Released layout held blank
