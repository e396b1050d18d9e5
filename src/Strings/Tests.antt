-- ===== src/Strings/Tests.antt =====
-- memmove at a concrete memory.
use xv.Common.{◌%◌, ◌≡◌, refl, update}
use xv.Strings.{Memory, memmove, copy_down, copy_up}

-- "ab" at 3, and byte i % 7 elsewhere
abbrev mem : Memory
mem = update (update (update (λ i. i % 7) 3 97) 4 98) 5 0

-- The ranges overlap.
second_byte : memmove mem 4 3 2 5 ≡ 98
unfolding memmove copy_down copy_up
second_byte = refl
