-- ===== src/Vm/User.antt =====
-- allocuvm, clearpteu, copyuvm, uva2ka and copyout of vm.c.
use xv.Common.{
  ℕ, zero, suc, ◌+◌, ◌-◌, ◌/◌, ◌%◌, ◌^◌, min, Bool, true, false, ◌&&◌, Option, none, some, ◌==◌,
  ltb, leb, if◌then◌else◌, Outcome, ok, panic, ◌>>=◌,
}
use xv.Strings.{store32, load32, memset, memmove}
use xv.Kalloc.{Kmem, pgsize, kernbase, v2p, pg_round_up, kalloc, kfree}
use xv.Vm.Layout.{pg_round_down, is_present, is_user, pte_addr, pte_flags, p2v, pte_wu}
use xv.Vm.Walk.{walkpgdir, mappages, deallocuvm, freevm, setupkvm}

-- The loop of allocuvm from page `a` on.
unfoldable pub alloc_from : (end rounds pgdir a oldsz newsz : ℕ) → Kmem → Outcome (ℕ × Kmem)
unfolding kalloc memset mappages deallocuvm kfree
alloc_from end zero pgdir a oldsz newsz k = ok (newsz, k)
alloc_from end (suc rounds) pgdir a oldsz newsz k =
    let step : Outcome (ℕ × Kmem) =
      let (mem, k') = kalloc k in
      let none_left = deallocuvm end pgdir newsz oldsz k' >>= λ (_, k''). ok (0, k'') in
      let map =
        mappages pgdir a pgsize (v2p mem) pte_wu
          (record k' { memory = memset k'.memory mem 0 pgsize })
        >>= λ (mapped, k'').
            let failed = deallocuvm end pgdir newsz oldsz k'' >>= λ (_, k3).
            kfree end mem k3 >>= λ k4. ok (0, k4) in
            let rest = alloc_from end rounds pgdir (a + pgsize) oldsz newsz k'' in
            if mapped then rest else failed in
      if mem == 0 then none_left else map in
    if ltb a newsz then step else ok (newsz, k)

unfoldable pub allocuvm : (end pgdir oldsz newsz : ℕ) → Kmem → Outcome (ℕ × Kmem)
unfolding alloc_from
allocuvm end pgdir oldsz newsz k =
    if leb kernbase newsz
    then ok (0, k)
    else if ltb newsz oldsz
    then ok (oldsz, k)
    else alloc_from end (newsz / pgsize + 1) pgdir (pg_round_up oldsz) oldsz newsz k

-- *pte &= ~PTE_U
unfoldable pub clearpteu : (pgdir uva : ℕ) → Kmem → Outcome Kmem
unfolding walkpgdir
clearpteu pgdir uva k =
    let (o, k') = walkpgdir pgdir uva false k in
    elim o [
      | none ↦ panic
      | some pte ↦
          let w = load32 k'.memory pte in
          ok (record k' { memory = store32 k'.memory pte (if is_user w then w - 4 else w) })
    ]

-- One round of the loop of copyuvm: false is its jump to `bad`.
unfoldable pub copy_page : (end pgdir d i : ℕ) → Kmem → Outcome (Bool × Kmem)
unfolding walkpgdir kalloc memmove mappages kfree
copy_page end pgdir d i k =
    let (o, k') = walkpgdir pgdir i false k in
    elim o [
      | none ↦ panic
      | some pte ↦
          let w = load32 k'.memory pte in
          let copied : Outcome (Bool × Kmem) =
            let (mem, k'') = kalloc k' in
            let map =
              mappages d i pgsize (v2p mem) (pte_flags w)
                (record k'' { memory = memmove k''.memory mem (p2v (pte_addr w)) pgsize })
              >>= λ (mapped, k3).
                  let failed = kfree end mem k3 >>= λ k4. ok (false, k4) in
                  if mapped then ok (true, k3) else failed in
            if mem == 0 then ok (false, k'') else map in
          if is_present w then copied else panic
    ]

-- The loop of copyuvm from page `i` on.
unfoldable pub copy_from : (end rounds pgdir d i sz : ℕ) → Kmem → Outcome (Bool × Kmem)
unfolding copy_page
copy_from end zero pgdir d i sz k = ok (true, k)
copy_from end (suc rounds) pgdir d i sz k =
    let step = copy_page end pgdir d i k >>= λ (copied, k').
    let rest = copy_from end rounds pgdir d (i + pgsize) sz k' in
    if copied then rest else ok (false, k') in
    if ltb i sz then step else ok (true, k)

unfoldable pub copyuvm : (end data' pgdir sz : ℕ) → Kmem → Outcome (Option ℕ × Kmem)
unfolding setupkvm copy_from freevm
copyuvm end data' pgdir sz k = setupkvm end data' k >>= λ (new, k'). elim new [
  | none ↦ ok (none, k')
  | some d ↦ copy_from end (sz / pgsize + 1) pgdir d 0 sz k' >>= λ (copied, k'').
      let bad = freevm end d k'' >>= λ k3. ok (none, k3) in if copied then ok (some d, k'') else bad
]

-- Where there is no table for the address, the source reads the word at 0: a fault in the kernel.
unfoldable pub uva2ka : (pgdir uva : ℕ) → Kmem → Outcome (Option ℕ)
unfolding walkpgdir
uva2ka pgdir uva k =
    let (o, k') = walkpgdir pgdir uva false k in
    elim o [
      | none ↦ panic
      | some pte ↦
          let w = load32 k'.memory pte in
          if is_present w && is_user w then ok (some (p2v (pte_addr w))) else ok none
    ]

-- The loop of copyout from the kernel's buffer `buf`; true is its return of 0.
unfoldable pub copyout : (rounds pgdir va buf len : ℕ) → Kmem → Outcome (Bool × Kmem)
unfolding uva2ka memmove
copyout zero pgdir va buf len k = ok (true, k)
copyout (suc rounds) pgdir va buf len k =
    let va0 = pg_round_down va in
    let n = min (pgsize - (va - va0)) len in
    let step : Outcome (Bool × Kmem) = uva2ka pgdir va0 k >>= λ pa0. elim pa0 [
      | none ↦ ok (false, k)
      | some pa ↦
          copyout rounds pgdir ((va0 + pgsize) % 2 ^ 32) (buf + n) (len - n)
            (record k { memory = memmove k.memory (pa + (va - va0)) buf n })
    ] in
    if len == 0 then ok (true, k) else step
