-- ===== src/BitOps/Bounds.antt =====
-- `fls` and `ffs` of kernel-basic-api/bit-ops-api.h find the highest and the lowest bit.
use linux_cpp.Prelude.{
  ℕ, ◌-◌, ◌*◌, ◌/◌, ◌%◌, ◌^◌, ◌≤◌, ◌<◌, ◌≡◌, ◌⊎◌, true, false, inl, inr, ltb, Bool-cases, ltb→lt,
  ltb→le, ne→==, arith, ◌==◌,
}
use linux_cpp.BitOps.{u32, fls_step, fls_last, fls, ffs}

-- `r` is one more than the place of the highest bit of `x`.
abbrev pub IsHighest : ℕ → ℕ → Type 0
IsHighest x r = (0 < r) × (r ≤ 32) × (2 ^ (r - 1) ≤ x) × (x < 2 ^ r)

-- The highest bit of `y` is bit 31 - d, and `r` has gone down by `d`.
abbrev Fell : ℕ → ℕ → ℕ → ℕ → Type 0
Fell r y r' d = (r' ≡ r - d) × (2 ^ (31 - d) ≤ y) × (y < 2 ^ (32 - d))

-- the last three tests, once the highest bit lies in the highest byte
low_steps : ℕ → ℕ → ℕ
low_steps r y = fls_last (fls_step 30 2 (fls_step 28 4 (r, y)))

low_steps-Fell :
    (r y : ℕ)
    → 2 ^ 24 ≤ y
    → y < u32
    → Fell r y (low_steps r y) 0
      ⊎ Fell r y (low_steps r y) 1
      ⊎ Fell r y (low_steps r y) 2
      ⊎ Fell r y (low_steps r y) 3
      ⊎ Fell r y (low_steps r y) 4
      ⊎ Fell r y (low_steps r y) 5
      ⊎ Fell r y (low_steps r y) 6
      ⊎ Fell r y (low_steps r y) 7
unfolding low_steps fls_step fls_last
low_steps-Fell r y p h = ground arith

step_pass : (k s r x : ℕ) → (x / 2 ^ k == 0) ≡ true → fls_step k s (r, x) ≡ (r - s, x * 2 ^ s % u32)
unfolding fls_step
step_pass k s r x e = rw e

step_fail : (k s r x : ℕ) → (x / 2 ^ k == 0) ≡ false → fls_step k s (r, x) ≡ (r, x)
unfolding fls_step
step_fail k s r x e = rw e

-- the first two tests, for each byte in which the highest bit can lie
fls_byte0 : (x : ℕ) → 0 < x → x < 2 ^ 8 → fls x ≡ low_steps 8 (x * 2 ^ 24)
unfolding fls low_steps
fls_byte0 x p h =
    let shifted : x * 2 ^ 16 % u32 * 2 ^ 8 % u32 ≡ x * 2 ^ 24 = omega arith in
    rw (
      ne→== x 0 (omega arith),
      step_pass 16 16 32 x (ground arith),
      step_pass 24 8 16 (x * 2 ^ 16 % u32) (ground arith),
      shifted,
    )

fls_byte1 : (x : ℕ) → 2 ^ 8 ≤ x → x < 2 ^ 16 → fls x ≡ low_steps 16 (x * 2 ^ 16)
unfolding fls low_steps
fls_byte1 x p h =
    let shifted : x * 2 ^ 16 % u32 ≡ x * 2 ^ 16 = omega arith in
    rw (
      ne→== x 0 (omega arith),
      step_pass 16 16 32 x (ground arith),
      shifted,
      step_fail 24 8 16 (x * 2 ^ 16) (ground arith),
    )

fls_byte2 : (x : ℕ) → 2 ^ 16 ≤ x → x < 2 ^ 24 → fls x ≡ low_steps 24 (x * 2 ^ 8)
unfolding fls low_steps
fls_byte2 x p h =
    let shifted : x * 2 ^ 8 % u32 ≡ x * 2 ^ 8 = omega arith in
    rw (
      ne→== x 0 (omega arith),
      step_fail 16 16 32 x (ground arith),
      step_pass 24 8 32 x (ground arith),
      shifted,
    )

fls_byte3 : (x : ℕ) → 2 ^ 24 ≤ x → x < u32 → fls x ≡ low_steps 32 x
unfolding fls low_steps
fls_byte3 x p h = rw (
  ne→== x 0 (omega arith),
  step_fail 16 16 32 x (ground arith),
  step_fail 24 8 32 x (ground arith),
)

byte0-IsHighest : (x : ℕ) → 0 < x → x < 2 ^ 8 → IsHighest x (fls x)
byte0-IsHighest x p h =
    ground (arith, fls_byte0 x p h, low_steps-Fell 8 (x * 2 ^ 24) (omega arith) (omega arith))

byte1-IsHighest : (x : ℕ) → 2 ^ 8 ≤ x → x < 2 ^ 16 → IsHighest x (fls x)
byte1-IsHighest x p h =
    ground (arith, fls_byte1 x p h, low_steps-Fell 16 (x * 2 ^ 16) (omega arith) (omega arith))

byte2-IsHighest : (x : ℕ) → 2 ^ 16 ≤ x → x < 2 ^ 24 → IsHighest x (fls x)
byte2-IsHighest x p h =
    ground (arith, fls_byte2 x p h, low_steps-Fell 24 (x * 2 ^ 8) (omega arith) (omega arith))

byte3-IsHighest : (x : ℕ) → 2 ^ 24 ≤ x → x < u32 → IsHighest x (fls x)
byte3-IsHighest x p h = ground (arith, fls_byte3 x p h, low_steps-Fell 32 x p h)

-- `fls` of a word other than 0 is one more than the place of its highest bit.
pub fls_bounds : (x : ℕ) → 0 < x → x < u32 → IsHighest x (fls x)
fls_bounds x p h = elim (Bool-cases (ltb x (2 ^ 8))) [
  | inl e ↦ byte0-IsHighest x p (ltb→lt x (2 ^ 8) e)
  | inr e ↦ elim (Bool-cases (ltb x (2 ^ 16))) [
    | inl e' ↦ byte1-IsHighest x (ltb→le x (2 ^ 8) e) (ltb→lt x (2 ^ 16) e')
    | inr e' ↦ elim (Bool-cases (ltb x (2 ^ 24))) [
      | inl e'' ↦ byte2-IsHighest x (ltb→le x (2 ^ 16) e') (ltb→lt x (2 ^ 24) e'')
      | inr e'' ↦ byte3-IsHighest x (ltb→le x (2 ^ 24) e'') h
    ]
  ]
]

-- `ffs` of a word other than 0 is one more than the place of its lowest bit.
pub ffs_bounds :
    (x : ℕ)
    → 0 < x
    → x < u32
    → (0 < ffs x) × (ffs x ≤ 32) × (x % 2 ^ (ffs x - 1) ≡ 0) × (x / 2 ^ (ffs x - 1) % 2 ≡ 1)
unfolding ffs
ffs_bounds x p h = ground arith
