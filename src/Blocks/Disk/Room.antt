-- ===== src/Blocks/Disk/Room.antt =====
-- How many blocks of group 0 are free for files, in filesystem-block-manager/test.cpp.
use linux_cpp.Prelude.{
  ℕ, zero, suc, ◌+◌, ◌≤◌, ◌≡◌, ◌≢◌, inl, inr, refl, Bool, true, false, ◌==◌, Bool-cases, ==→eq,
  ==→ne, arith,
}
use linux_cpp.Blocks.{Words, set_bit, test_bit}
use linux_cpp.Blocks.Bits.{test_bit-set_bit_ne}
use linux_cpp.Blocks.Scan.{AllSet}
use linux_cpp.Blocks.Disk.{State}
use linux_cpp.Blocks.Disk.Alloc.{view}

abbrev pub one_clear : Bool → ℕ
one_clear true = 0
one_clear false = 1

-- how many of `left` bits from `i` on are clear
unfoldable pub free_bits : ℕ → ℕ → Words → ℕ
free_bits zero i ws = 0
free_bits (suc left) i ws = one_clear (test_bit i ws) + free_bits left (suc i) ws

-- the free blocks that `get_block` can give out
unfoldable pub room : State → ℕ
room s = free_bits 170 22 (view s 2)

pub free_bits-AllSet : (left i : ℕ) (ws : Words) → AllSet ws i (i + left) → free_bits left i ws ≡ 0
unfolding free_bits
free_bits-AllSet zero i ws h = refl
free_bits-AllSet (suc left) i ws h = ground (
  arith,
  h i (omega arith) (omega arith),
  free_bits-AllSet left (suc i) ws (λ k l u. h k (omega arith) (omega arith)),
)

free_bits_ext :
    (left i : ℕ) (ws ws' : Words)
    → ((k : ℕ) → i ≤ k → test_bit k ws' ≡ test_bit k ws)
    → free_bits left i ws' ≡ free_bits left i ws
unfolding free_bits
free_bits_ext zero i ws ws' h = refl
free_bits_ext (suc left) i ws ws' h =
    ground (arith, h i (omega arith), free_bits_ext left (suc i) ws ws' (λ k l. h k (omega arith)))

-- one more bit that is set takes one away at most
pub free_bits-set_bit :
    (left i n : ℕ) (ws : Words) → free_bits left i ws ≤ suc (free_bits left i (set_bit n ws))
unfolding free_bits
free_bits-set_bit zero i n ws = omega arith
free_bits-set_bit (suc left) i n ws = elim (Bool-cases (i == n)) [
  | inl e ↦ ground (
    arith,
    free_bits_ext left (suc i) ws (set_bit n ws)
        (λ k l. test_bit-set_bit_ne n k ws (after i n k (==→eq i n e) l)),
  )
  | inr d ↦
      ground (arith, test_bit-set_bit_ne n i ws (==→ne i n d), free_bits-set_bit left (suc i) n ws)
]
  where
    after : (i n k : ℕ) → i ≡ n → suc i ≤ k → k ≢ n
    after i n k e l = λ q. absurd (omega (arith, e, l, q))
