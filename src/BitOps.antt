-- ===== src/BitOps.antt =====
-- kernel-basic-api/bit-ops-api.h: the lowest and the highest bit of a word, and powers of two.
-- `unsigned int` has 32 bits. A mask of the high bits is a division, a mask of the low bits a
-- remainder, and a shift to the left loses what leaves the word.
pub mod Bounds
pub mod Log
mod Tests
use linux_cpp.Prelude.{
  ℕ, zero, suc, ◌+◌, ◌-◌, ◌*◌, ◌/◌, ◌%◌, ◌^◌, Option, none, some, ◌==◌, if◌then◌else◌,
}

abbrev pub u32 : ℕ
u32 = 2 ^ 32

-- one `if` of `fls`: no bit from bit `k` on
pub fls_step : ℕ → ℕ → ℕ × ℕ → ℕ × ℕ
fls_step k s (r, x) = if x / 2 ^ k == 0 then (r - s, x * 2 ^ s % u32) else (r, x)

-- the last `if` of `fls` leaves `x` as it is
pub fls_last : ℕ × ℕ → ℕ
fls_last (r, x) = if x / 2 ^ 31 == 0 then r - 1 else r

pub fls : ℕ → ℕ
fls x =
    if x == 0
    then 0
    else fls_last (fls_step 30 2 (fls_step 28 4 (fls_step 24 8 (fls_step 16 16 (32, x)))))

-- one `if` of `ffs`: no bit below bit `k`
abbrev pub ffs_step : ℕ → ℕ × ℕ → ℕ × ℕ
ffs_step k (r, x) = if x % 2 ^ k == 0 then (r + k, x / 2 ^ k) else (r, x)

abbrev pub ffs_last : ℕ × ℕ → ℕ
ffs_last (r, x) = if x % 2 == 0 then r + 1 else r

pub ffs : ℕ → ℕ
ffs x = if x == 0 then 0 else ffs_last (ffs_step 2 (ffs_step 4 (ffs_step 8 (ffs_step 16 (1, x)))))

-- the conditions of the macro `__ilog2` for the bits below bit `k`, from the highest on; its last
-- value -1 is `none`, and `n` is the caller's variable that the macro reads
pub highest : ℕ → ℕ → Option ℕ
highest zero n = none
highest (suc k) n = if n / 2 ^ k % 2 == 1 then some k else highest k n

-- `__ilog2`
pub ilog2_macro : ℕ → Option ℕ
ilog2_macro n = highest 64 n

-- `roundup_power_of_two( x )`: `ilog2( x - 1 ) + 1` is `fls( x - 1 )`, and `x - 1` wraps at 0.
pub roundup_power_of_two : ℕ → ℕ
roundup_power_of_two x = 2 ^ fls ((x + u32 - 1) % u32)

-- `rounddown_power_of_two( x )`: `ilog2( x )` is `fls( x ) - 1`; at 0 the shift by -1 is undefined.
pub rounddown_power_of_two : ℕ → Option ℕ
rounddown_power_of_two x = if x == 0 then none else some (2 ^ (fls x - 1))
