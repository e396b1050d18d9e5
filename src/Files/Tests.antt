-- ===== src/Files/Tests.antt =====
-- The theorems on file.c with a table of two slots.
use xv.Common.{
  ℕ, suc, zero, ◌≡◌, refl, false, Option, none, List, [], ◌∷◌, ◌==◌, if◌then◌else◌, get_elem?, ok,
}
use xv.Files.{File, fd_none, free_slot, filealloc, filedup, drop_ref}
use xv.Files.Shared.{
  System, alloc, dup, Reach, here, next, count, AllFree, unshared, fileclose_last,
}

abbrev blank : ℕ → File
blank n = record {
  type = fd_none;
  ref = n;
  readable = false;
  writable = false;
  pipe = 0;
  ip = 0;
  off = 0;
}

abbrev table : List File
table = blank 0 ∷ blank 0 ∷ []

all_free : AllFree table
all_free zero = refl
all_free (suc zero) = refl
all_free (suc (suc i)) = refl

abbrev one : System
one = record { files = blank 1 ∷ blank 0 ∷ []; held = 0 ∷ [] }

abbrev two : System
two = record { files = blank 2 ∷ blank 0 ∷ []; held = 0 ∷ 0 ∷ [] }

Reach-two : Reach (unshared table) two
unfolding filealloc free_slot filedup
Reach-two =
    next (next here (alloc (unshared table) 0 one.files refl)) (dup one [] [] 0 two.files refl refl)

fileclose_example :
    ((files : List File) × (filedup 0 two.files ≡ ok files))
    × ((r : Option File × List File) × (drop_ref 0 two.files ≡ ok r)
        × (r.0 ≡ (if count 0 (0 ∷ []) == 0 then get_elem? two.files 0 else none)))
fileclose_example = fileclose_last table [] (0 ∷ []) 0 all_free Reach-two refl
