-- ===== src/BitOps/Log.antt =====
-- The powers of two of kernel-basic-api/bit-ops-api.h: `roundup_power_of_two`,
-- `rounddown_power_of_two` and the constants of `__ilog2`.
use native.Mathlib.Nat.{pow-le-pow_right, div-eq_of_lt, div-eq-sub-div, pow-succ'}
use linux_cpp.Prelude.{
  ℕ, zero, suc, ◌+◌, ◌-◌, ◌*◌, ◌/◌, ◌%◌, ◌^◌, ◌≤◌, ◌<◌, ◌≡◌, sym, refl, inl, inr, true, false,
  Option, none, some, Bool-cases, ltb, ltb→lt, ltb→le, ==→eq, arith, ◌==◌,
}
use linux_cpp.BitOps.{u32, fls, highest, ilog2_macro, roundup_power_of_two, rounddown_power_of_two}
use linux_cpp.BitOps.Bounds.{IsHighest, fls_bounds}

pow_suc : (r : ℕ) → 2 ^ suc r ≡ 2 * 2 ^ r
pow_suc r = pow-succ' 2 r

pred_suc : (r : ℕ) → suc r - 1 ≡ r
pred_suc r = omega arith

pow_pred : (r : ℕ) → 0 < r → 2 ^ r ≡ 2 * 2 ^ (r - 1)
pow_pred zero p = omega arith
pow_pred (suc r) p = rw (pred_suc r) (pow_suc r)

-- `p` is from `x` on, and its half is below `x`.
abbrev pub IsRoundedUp : ℕ → ℕ → Type 0
IsRoundedUp x p = (x ≤ p) × (p < 2 * x)

abbrev pub IsRoundedDown : ℕ → Option ℕ → Type 0
IsRoundedDown x none = x ≡ 0
IsRoundedDown x (some p) = (p ≤ x) × (x < 2 * p)

roundup_power_of_two-fls : (x : ℕ) → 0 < x → x < u32 → roundup_power_of_two x ≡ 2 ^ fls (x - 1)
unfolding roundup_power_of_two
roundup_power_of_two-fls x p h = let back : (x + u32 - 1) % u32 ≡ x - 1 = omega arith in rw back

-- `roundup_power_of_two` of a word `x` other than 0 is at least `x` and less than twice `x`.
pub roundup_power_of_two_bounds : (x : ℕ) → 0 < x → x < u32 → IsRoundedUp x (roundup_power_of_two x)
unfolding roundup_power_of_two fls
roundup_power_of_two_bounds x p h = elim (Bool-cases (x == 1)) [
  | inl e ↦ rw (==→eq x 1 e) (omega arith)
  | inr e ↦
      let r = fls (x - 1) in
      let b : IsHighest (x - 1) (fls (x - 1)) = fls_bounds (x - 1) (ground arith) (ground arith) in
      ground (arith, roundup_power_of_two-fls x p h, pow_pred (fls (x - 1)) b.0)
]

-- `rounddown_power_of_two` of a word `x` is at most `x` and more than half of `x`, and it has no
-- value at 0 only.
pub rounddown_power_of_two_bounds : (x : ℕ) → x < u32 → IsRoundedDown x (rounddown_power_of_two x)
unfolding rounddown_power_of_two
rounddown_power_of_two_bounds x h = elim (Bool-cases (x == 0)) [
  | inl e ↦ rw e (==→eq x 0 e)
  | inr e ↦
      let b : IsHighest x (fls x) = fls_bounds x (ground arith) h in
      let q : 2 ^ fls x ≡ 2 * 2 ^ (fls x - 1) = pow_pred (fls x) b.0 in rw e (ground (arith, q, b))
]

highest_at : (k n : ℕ) → (n / 2 ^ k % 2 == 1) ≡ true → highest (suc k) n ≡ some k
unfolding highest
highest_at k n e = rw e

highest_below : (k n : ℕ) → (n / 2 ^ k % 2 == 1) ≡ false → highest (suc k) n ≡ highest k n
unfolding highest
highest_below k n e = rw e

top_bit : (d n : ℕ) → (n / d % 2 == 1) ≡ true → d ≤ n
top_bit d n e = elim (Bool-cases (ltb n d)) [
  | inl l ↦ ground (arith, div-eq_of_lt (ltb→lt n d l))
  | inr l ↦ ltb→le n d l
]

no_bit : (d n : ℕ) → (n / d % 2 == 1) ≡ false → n < 2 * d → n < d
no_bit d n e h = elim (Bool-cases (ltb n d)) [
  | inl l ↦ ltb→lt n d l
  | inr l ↦ ground (
    arith,
    div-eq-sub-div {m = d} {n = n} (omega arith) (ltb→le n d l),
    div-eq_of_lt {n = n - d} {m = d} (omega (arith, ltb→le n d l)),
  )
]

-- `k` is the place of the highest bit of `n`; there is none in 0.
abbrev IsLog : ℕ → Option ℕ → Type 0
IsLog n none = n ≡ 0
IsLog n (some k) = (2 ^ k ≤ n) × (n < 2 ^ suc k)

highest-IsLog : (m n : ℕ) → n < 2 ^ m → IsLog n (highest m n)
unfolding highest
highest-IsLog zero n h = omega arith
highest-IsLog (suc k) n h = elim (Bool-cases (n / 2 ^ k % 2 == 1)) [
  | inl e ↦ rw (highest_at k n e) (top_bit (2 ^ k) n e, h)
  | inr e ↦
      rw (highest_below k n e) (highest-IsLog k n (no_bit (2 ^ k) n e (rw (sym (pow_suc k)) h)))
]

-- the constants of `__ilog2`, on a 64-bit word
ilog2_macro-IsLog : (n : ℕ) → n < 2 ^ 64 → IsLog n (ilog2_macro n)
unfolding ilog2_macro
ilog2_macro-IsLog n h = highest-IsLog 64 n h

pow-below : (j k n : ℕ) → 2 ^ k ≤ n → n < 2 ^ j → k < j
pow-below j k n p h = elim (Bool-cases (ltb k j)) [
  | inl l ↦ ltb→lt k j l
  | inr l ↦ omega (arith, pow-le-pow_right {n = 2} (omega arith) {i = j} {j = k} (ltb→le k j l))
]

fls-log : (x : ℕ) (o : Option ℕ) → 0 < x → x < u32 → IsLog x o → o ≡ some (fls x - 1)
fls-log x none p h e = ground arith
fls-log x (some k) p h (lo, hi) =
    let b = fls_bounds x p h in
    let q : k < fls x = pow-below (fls x) k x lo b.3 in
    let q' : fls x - 1 < suc k = pow-below (suc k) (fls x - 1) x b.2 hi in
    let same : k ≡ fls x - 1 = omega arith in rw same refl

-- On a 32-bit word `n` other than 0, `__ilog2( n )` is the `ilog2` that the header defines through
-- `fls`.
pub ilog2_macro-fls : (n : ℕ) → 0 < n → n < u32 → ilog2_macro n ≡ some (fls n - 1)
ilog2_macro-fls n p h = fls-log n (ilog2_macro n) p h (ilog2_macro-IsLog n (omega arith))
