-- ===== src/BitOps/Tests.antt =====
-- Runs of kernel-basic-api/bit-ops-api.h, and its theorems at concrete words.
use linux_cpp.Prelude.{◌+◌, ◌^◌, ◌≡◌, refl, some}
use linux_cpp.BitOps.{
  fls, fls_step, fls_last, ffs, highest, ilog2_macro, roundup_power_of_two, rounddown_power_of_two,
}

fls_test : (fls 0 ≡ 0) × (fls 1 ≡ 1) × (fls 4096 ≡ 13) × (fls (2 ^ 31) ≡ 32)
unfolding fls fls_step fls_last
fls_test = (refl, refl, refl, refl)

ffs_test : (ffs 0 ≡ 0) × (ffs 1 ≡ 1) × (ffs 4096 ≡ 13) × (ffs (2 ^ 31) ≡ 32)
unfolding ffs
ffs_test = (refl, refl, refl, refl)

round_test : (roundup_power_of_two 33 ≡ 64) × (rounddown_power_of_two 33 ≡ some 32)
unfolding roundup_power_of_two rounddown_power_of_two fls fls_step fls_last
round_test = (refl, refl)

ilog2_macro_test : (ilog2_macro (2 ^ 40 + 5) ≡ some 40) × (ilog2_macro 1 ≡ some 0)
unfolding ilog2_macro highest
ilog2_macro_test = (refl, refl)
