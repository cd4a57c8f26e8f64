-- ===== src/Prelude/Words.antt =====
-- The bitwise operators on unsigned words, bit by bit from the lowest on.
use Prim.Native.Nat.{ℕ, zero, suc, ◌+◌, ◌-◌, ◌*◌, ◌/◌, ◌%◌, ◌≤◌, ◌<◌}
use mathlib.Core.Path.{◌≡◌, refl, ap}
use mathlib.Core.Logic.{◌≢◌}
use mathlib.Core.Bool.{Bool, true, false, not}
use native.Mathlib.Omega.{arith}
use linux_cpp.Prelude.Tests.{◌==◌}

-- `( w & ( 1UL << k ) ) != 0`
unfoldable pub bit : ℕ → ℕ → Bool
bit w zero = w % 2 == 1
bit w (suc k) = bit (w / 2) k

-- `w | ( 1UL << k )`
unfoldable pub set_one : ℕ → ℕ → ℕ
set_one w zero = w / 2 * 2 + 1
set_one w (suc k) = set_one (w / 2) k * 2 + w % 2

-- `w & ~( 1UL << k )`
unfoldable pub set_zero : ℕ → ℕ → ℕ
set_zero w zero = w / 2 * 2
set_zero w (suc k) = set_zero (w / 2) k * 2 + w % 2

-- `~w` of a word of `n` bits
unfoldable pub complement : ℕ → ℕ → ℕ
complement zero w = 0
complement (suc n) w = complement n (w / 2) * 2 + (1 - w % 2)

-- `w & ( ~0UL << k )`
unfoldable pub above : ℕ → ℕ → ℕ
above zero w = w
above (suc k) w = above k (w / 2) * 2

-- `w & ( ( 1UL << k ) - 1 )`
unfoldable pub below : ℕ → ℕ → ℕ
below zero w = 0
below (suc k) w = below k (w / 2) * 2 + w % 2

half : (a b : ℕ) → b < 2 → (a * 2 + b) / 2 ≡ a
half a b h = omega arith

double : (a : ℕ) → a * 2 / 2 ≡ a
double a = omega arith

low : (a b : ℕ) → b < 2 → (a * 2 + b) % 2 ≡ b
low a b h = omega arith

pub bit-set_one_same : (w k : ℕ) → bit (set_one w k) k ≡ true
unfolding bit set_one
bit-set_one_same w zero = ground (arith, low (w / 2) 1 (omega arith))
bit-set_one_same w (suc k) =
    rw (half (set_one (w / 2) k) (w % 2) (omega arith)) (bit-set_one_same (w / 2) k)

pub bit-set_one_ne : (w k j : ℕ) → j ≢ k → bit (set_one w k) j ≡ bit w j
unfolding bit set_one
bit-set_one_ne w zero zero n = absurd (n refl)
bit-set_one_ne w zero (suc j) n = ap (λ v. bit v j) (half (w / 2) 1 (omega arith))
bit-set_one_ne w (suc k) zero n = ap (λ v. v == 1) (low (set_one (w / 2) k) (w % 2) (omega arith))
bit-set_one_ne w (suc k) (suc j) n =
    rw (half (set_one (w / 2) k) (w % 2) (omega arith))
      (bit-set_one_ne (w / 2) k j (λ e. n (ap suc e)))

pub bit-set_zero_same : (w k : ℕ) → bit (set_zero w k) k ≡ false
unfolding bit set_zero
bit-set_zero_same w zero = ground arith
bit-set_zero_same w (suc k) =
    rw (half (set_zero (w / 2) k) (w % 2) (omega arith)) (bit-set_zero_same (w / 2) k)

pub bit-set_zero_ne : (w k j : ℕ) → j ≢ k → bit (set_zero w k) j ≡ bit w j
unfolding bit set_zero
bit-set_zero_ne w zero zero n = absurd (n refl)
bit-set_zero_ne w zero (suc j) n = ap (λ v. bit v j) (omega arith)
bit-set_zero_ne w (suc k) zero n = ap (λ v. v == 1) (low (set_zero (w / 2) k) (w % 2) (omega arith))
bit-set_zero_ne w (suc k) (suc j) n =
    rw (half (set_zero (w / 2) k) (w % 2) (omega arith))
      (bit-set_zero_ne (w / 2) k j (λ e. n (ap suc e)))

pub bit-complement : (n w i : ℕ) → i < n → bit (complement n w) i ≡ not (bit w i)
unfolding bit complement
bit-complement zero w i h = absurd (omega arith)
bit-complement (suc n) w zero h =
    ground (arith, low (complement n (w / 2)) (1 - w % 2) (omega arith))
bit-complement (suc n) w (suc i) h =
    rw (half (complement n (w / 2)) (1 - w % 2) (omega arith))
      (bit-complement n (w / 2) i (omega arith))

pub bit-above_low : (k w i : ℕ) → i < k → bit (above k w) i ≡ false
unfolding bit above
bit-above_low zero w i h = absurd (omega arith)
bit-above_low (suc k) w zero h = ground arith
bit-above_low (suc k) w (suc i) h =
    rw (double (above k (w / 2))) (bit-above_low k (w / 2) i (omega arith))

pub bit-above_high : (k w i : ℕ) → k ≤ i → bit (above k w) i ≡ bit w i
unfolding bit above
bit-above_high zero w i h = refl
bit-above_high (suc k) w zero h = absurd (omega arith)
bit-above_high (suc k) w (suc i) h =
    rw (double (above k (w / 2))) (bit-above_high k (w / 2) i (omega arith))

pub bit-below : (k w i : ℕ) → i < k → bit (below k w) i ≡ bit w i
unfolding bit below
bit-below zero w i h = absurd (omega arith)
bit-below (suc k) w zero h = ap (λ v. v == 1) (low (below k (w / 2)) (w % 2) (omega arith))
bit-below (suc k) w (suc i) h =
    rw (half (below k (w / 2)) (w % 2) (omega arith)) (bit-below k (w / 2) i (omega arith))

pub bit-nothing : (i : ℕ) → bit 0 i ≡ false
unfolding bit
bit-nothing zero = refl
bit-nothing (suc i) = rw (zero_half) (bit-nothing i)
  where
    zero_half : ◌≡◌ {A = ℕ} (0 / 2) 0
    zero_half = omega arith

-- a word with no bit from `n` on
pub Fits : ℕ → ℕ → Type 0
Fits zero w = w ≡ 0
Fits (suc n) w = Fits n (w / 2)

pub complement-Fits : (n w : ℕ) → Fits n (complement n w)
unfolding Fits complement
complement-Fits zero w = refl
complement-Fits (suc n) w =
    rw (half (complement n (w / 2)) (1 - w % 2) (omega arith)) (complement-Fits n (w / 2))

pub above-Fits : (n k w : ℕ) → Fits n w → Fits n (above k w)
unfolding Fits above
above-Fits n zero w h = h
above-Fits zero (suc k) w h = omega (arith, above-Fits 0 k (w / 2) (omega arith))
above-Fits (suc n) (suc k) w h = rw (double (above k (w / 2))) (above-Fits n k (w / 2) h)

pub Fits-zero : (n w : ℕ) → Fits n w → ((i : ℕ) → i < n → bit w i ≡ false) → w ≡ 0
unfolding Fits bit
Fits-zero zero w h k = h
Fits-zero (suc n) w h k =
    ground (arith, Fits-zero n (w / 2) h (λ i l. k (suc i) (omega arith)), k 0 (omega arith))
