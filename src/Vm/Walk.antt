-- ===== src/Vm/Walk.antt =====
-- walkpgdir, mappages and setupkvm of vm.c, and deallocuvm and freevm.
use xv.Common.{
  ℕ, zero, suc, ◌+◌, ◌-◌, ◌*◌, ◌/◌, ◌%◌, ◌^◌, Bool, true, false, not, Option, none, some, List, [],
  ◌∷◌, ◌==◌, ltb, leb, if◌then◌else◌, Outcome, ok, panic, ◌>>=◌,
}
use xv.Strings.{store32, load32, memset}
use xv.Kalloc.{Kmem, pgsize, kernbase, phystop, v2p, pg_round_up, kalloc, kfree}
use xv.Vm.Layout.{npdentries, pdx, ptx, pg_round_down, is_present, pte_addr, p2v, pte_pwu, mk_pte}

-- the table for a directory entry that is not present: a zeroed page, and its entry in the directory
unfoldable pub new_table : (pde : ℕ) → Kmem → Option ℕ × Kmem
unfolding kalloc memset
new_table pde k =
    let (p, k') = kalloc k in
    if p == 0 then (none, k') else (
      some p,
      record k' { memory = store32 (memset k'.memory p 0 pgsize) pde (v2p p + pte_pwu) },
    )

-- The address of the entry for `va`, or none for 0.
unfoldable pub walkpgdir : (pgdir va : ℕ) (alloc : Bool) → Kmem → Option ℕ × Kmem
unfolding new_table
walkpgdir pgdir va alloc k =
    let pde = load32 k.memory (pgdir + 4 * pdx va) in
    let new : Option ℕ × Kmem =
      let (o, k') = new_table (pgdir + 4 * pdx va) k in
      elim o [ none ↦ (none, k') | some p ↦ (some (p + 4 * ptx va), k') ] in
    if is_present pde
    then (some (p2v (pte_addr pde) + 4 * ptx va), k)
    else if alloc
    then new
    else (none, k)

-- one round of the loop of mappages: none is its return of -1
unfoldable pub map_page : (pgdir a pa perm : ℕ) → Kmem → Outcome (Bool × Kmem)
unfolding walkpgdir
map_page pgdir a pa perm k =
    let (o, k') = walkpgdir pgdir a true k in
    elim o [
      | none ↦ ok (false, k')
      | some pte ↦
          if is_present (load32 k'.memory pte)
          then panic
          else ok (true, record k' { memory = store32 k'.memory pte (mk_pte pa perm) })
    ]

-- The loop of mappages from page `a` to page `last`; true is its return of 0. From `a`, which grows by
-- a page modulo 2 ^ 32, `last` is reached in the rounds that mappages gives.
unfoldable pub map_from : (rounds pgdir a last pa perm : ℕ) → Kmem → Outcome (Bool × Kmem)
unfolding map_page
map_from zero pgdir a last pa perm k = ok (true, k)
map_from (suc rounds) pgdir a last pa perm k = map_page pgdir a pa perm k >>= λ (mapped, k').
    let rest =
      map_from rounds pgdir ((a + pgsize) % 2 ^ 32) last ((pa + pgsize) % 2 ^ 32) perm k' in
    if not mapped then ok (false, k') else if a == last then ok (true, k') else rest

unfoldable pub mappages : (pgdir va size pa perm : ℕ) → Kmem → Outcome (Bool × Kmem)
unfolding map_from
mappages pgdir va size pa perm k =
    let a = pg_round_down va in
    let last = pg_round_down ((va + size + 2 ^ 32 - 1) % 2 ^ 32) in
    map_from ((last + 2 ^ 32 - a) % 2 ^ 32 / pgsize + 1) pgdir a last pa perm k

-- One round of the loop of deallocuvm at address `a`: the address of the next round.
unfoldable pub unmap_page : (end pgdir a : ℕ) → Kmem → Outcome (ℕ × Kmem)
unfolding walkpgdir kfree
unmap_page end pgdir a k =
    let (o, k') = walkpgdir pgdir a false k in
    elim o [
      | none ↦ ok ((pdx a + 1) * 4194304 % 2 ^ 32, k')
      | some pte ↦
          let pa = pte_addr (load32 k'.memory pte) in
          let freed = kfree end (p2v pa) k' >>= λ k''.
          ok ((a + pgsize) % 2 ^ 32, record k'' { memory = store32 k''.memory pte 0 }) in
          if not (is_present (load32 k'.memory pte))
          then ok ((a + pgsize) % 2 ^ 32, k')
          else if pa == 0
          then panic
          else freed
    ]

-- The loop of deallocuvm from `a` on: each round goes on by a page at least.
unfoldable pub unmap_from : (end rounds pgdir a oldsz : ℕ) → Kmem → Outcome Kmem
unfolding unmap_page
unmap_from end zero pgdir a oldsz k = ok k
unmap_from end (suc rounds) pgdir a oldsz k =
    let step = unmap_page end pgdir a k >>= λ (a', k'). unmap_from end rounds pgdir a' oldsz k' in
    if ltb a oldsz then step else ok k

unfoldable pub deallocuvm : (end pgdir oldsz newsz : ℕ) → Kmem → Outcome (ℕ × Kmem)
unfolding unmap_from
deallocuvm end pgdir oldsz newsz k =
    let unmapped = unmap_from end (oldsz / pgsize + 1) pgdir (pg_round_up newsz) oldsz k >>= λ k'.
    ok (newsz, k') in
    if leb oldsz newsz then ok (oldsz, k) else unmapped

-- The loop of freevm over the directory, from entry `i` on.
unfoldable pub free_tables : (end rounds i pgdir : ℕ) → Kmem → Outcome Kmem
unfolding kfree
free_tables end zero i pgdir k = ok k
free_tables end (suc rounds) i pgdir k =
    let pde = load32 k.memory (pgdir + 4 * i) in
    let freed =
      kfree end (p2v (pte_addr pde)) k >>= λ k'. free_tables end rounds (i + 1) pgdir k' in
    let kept = free_tables end rounds (i + 1) pgdir k in if is_present pde then freed else kept

unfoldable pub freevm : (end pgdir : ℕ) → Kmem → Outcome Kmem
unfolding deallocuvm free_tables kfree
freevm end pgdir k =
    let all = deallocuvm end pgdir kernbase 0 k >>= λ (_, k').
    free_tables end npdentries 0 pgdir k' >>= λ k''. kfree end pgdir k'' in
    if pgdir == 0 then panic else all

-- `struct kmap`
pub record Kmap : Type 0 where
  pub virt : ℕ
  pub phys_start : ℕ
  pub phys_end : ℕ
  pub perm : ℕ

-- kmap; `data` is the address of the kernel's data
abbrev pub kmap : (data' : ℕ) → List Kmap
kmap data' =
    record { virt = kernbase; phys_start = 0; phys_end = 0x100000; perm = 2 }
    ∷ record { virt = kernbase + 0x100000; phys_start = 0x100000; phys_end = v2p data'; perm = 0 }
    ∷ record { virt = data'; phys_start = v2p data'; phys_end = phystop; perm = 2 }
    ∷ record { virt = 0xFE000000; phys_start = 0xFE000000; phys_end = 0; perm = 2 }
    ∷ []

-- the loop of setupkvm over the entries that are left
unfoldable pub map_kernel : (end pgdir : ℕ) → List Kmap → Kmem → Outcome (Option ℕ × Kmem)
unfolding mappages freevm
map_kernel end pgdir [] k = ok (some pgdir, k)
map_kernel end pgdir (m ∷ ms) k =
    mappages pgdir m.virt ((m.phys_end + 2 ^ 32 - m.phys_start) % 2 ^ 32) m.phys_start m.perm k
    >>= λ (mapped, k').
        let failed = freevm end pgdir k' >>= λ k''. ok (none, k'') in
        let rest = map_kernel end pgdir ms k' in if mapped then rest else failed

-- The test that PHYSTOP is below DEVSPACE holds of the constants.
unfoldable pub setupkvm : (end data' : ℕ) → Kmem → Outcome (Option ℕ × Kmem)
unfolding kalloc memset map_kernel
setupkvm end data' k =
    let (pgdir, k') = kalloc k in
    let filled =
      map_kernel end pgdir (kmap data') (record k' { memory = memset k'.memory pgdir 0 pgsize }) in
    if pgdir == 0 then ok (none, k') else filled
