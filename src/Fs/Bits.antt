-- ===== src/Fs/Bits.antt =====
-- One bit of a byte set or cleared, all others kept.
use xv.Common.{ℕ, zero, suc, ◌+◌, ◌-◌, ◌*◌, ◌/◌, ◌%◌, ◌≤◌, ◌<◌, ◌≡◌, arith, ◌==◌, if◌then◌else◌}
use xv.Fs.Disk.{bit, mask}

pub set_bit : (v j k : ℕ) → bit v j ≡ 0 → bit (v + mask j) k ≡ (if j == k then 1 else bit v k)
unfolding bit mask
set_bit v zero zero e = omega arith
set_bit v zero (suc k) e = let half : (v + 1) / 2 ≡ v / 2 = omega arith in rw half (ground arith)
set_bit v (suc j) zero e =
    let even : (v + 2 * mask j) % 2 ≡ v % 2 = omega arith in rw even (ground arith)
set_bit v (suc j) (suc k) e =
    let half : (v + 2 * mask j) / 2 ≡ v / 2 + mask j = omega arith in
    rw half (let ih = set_bit (v / 2) j k e in ground (arith, ih))

pub bit-le : (v j : ℕ) → bit v j ≡ 1 → mask j ≤ v
unfolding bit mask
bit-le v zero e = omega arith
bit-le v (suc j) e = omega (arith, bit-le (v / 2) j e)

pub clear_bit : (v j k : ℕ) → bit v j ≡ 1 → bit (v - mask j) k ≡ (if j == k then 0 else bit v k)
unfolding bit mask
clear_bit v zero zero e = omega arith
clear_bit v zero (suc k) e = let half : (v - 1) / 2 ≡ v / 2 = omega arith in rw half (ground arith)
clear_bit v (suc j) zero e =
    let even : (v - 2 * mask j) % 2 ≡ v % 2 = omega (arith, bit-le (v / 2) j e) in
    rw even (ground arith)
clear_bit v (suc j) (suc k) e =
    let half : (v - 2 * mask j) / 2 ≡ v / 2 - mask j = omega (arith, bit-le (v / 2) j e) in
    rw half (let ih = clear_bit (v / 2) j k e in ground (arith, ih))

pub bit-lt : (v k : ℕ) → bit v k < 2
unfolding bit
bit-lt v zero = omega arith
bit-lt v (suc k) = bit-lt (v / 2) k
