-- ===== src/Blocks/Bits.antt =====
-- The bit operations of filesystem-block-manager/test.cpp on a row of words.
use linux_cpp.Prelude.{
  ℕ, ◌/◌, ◌%◌, ◌≡◌, ◌≢◌, inl, inr, refl, sym, ap, ◌∙◌, true, false, ◌==◌, Bool-cases, ==→eq, ==→ne,
  bit, bit-set_one_same, bit-set_one_ne, bit-set_zero_same, bit-set_zero_ne, arith,
}
use linux_cpp.Blocks.{Words, store, set_bit, clear_bit, test_bit, test_and_set_bit}

pub store_same : (addr : Words) (i v : ℕ) → store addr i v i ≡ v
store_same addr i v = ground arith

pub store_ne : (addr : Words) (i v j : ℕ) → j ≢ i → store addr i v j ≡ addr j
store_ne addr i v j h = ground arith

pub test_bit-set_bit_same : (nr : ℕ) (addr : Words) → test_bit nr (set_bit nr addr) ≡ true
unfolding test_bit set_bit
test_bit-set_bit_same nr addr =
    ap (λ w. bit w (nr % 64)) (store_same addr (nr / 64) _)
    ∙ bit-set_one_same (addr (nr / 64)) (nr % 64)

pub test_bit-clear_bit_same : (nr : ℕ) (addr : Words) → test_bit nr (clear_bit nr addr) ≡ false
unfolding test_bit clear_bit
test_bit-clear_bit_same nr addr =
    ap (λ w. bit w (nr % 64)) (store_same addr (nr / 64) _)
    ∙ bit-set_zero_same (addr (nr / 64)) (nr % 64)

other_offset : (k nr : ℕ) → k ≢ nr → k / 64 ≡ nr / 64 → k % 64 ≢ nr % 64
other_offset k nr h e = λ e'. h (omega arith)

-- the word of a bit `k` after the word of `nr` has become one with the other bits as before
store_other :
    (addr : Words) (nr k w : ℕ)
    → k ≢ nr
    → ((j : ℕ) → j ≢ nr % 64 → bit w j ≡ bit (addr (nr / 64)) j)
    → bit (store addr (nr / 64) w (k / 64)) (k % 64) ≡ bit (addr (k / 64)) (k % 64)
store_other addr nr k w h same = elim (Bool-cases (k / 64 == nr / 64)) [
  | inl e ↦
      let q = ==→eq (k / 64) (nr / 64) e in
      ap (λ i. bit (store addr (nr / 64) w i) (k % 64)) q
      ∙ ap (λ v. bit v (k % 64)) (store_same addr (nr / 64) w)
      ∙ same (k % 64) (other_offset k nr h q)
      ∙ ap (λ i. bit (addr i) (k % 64)) (sym q)
  | inr n ↦
      ap (λ v. bit v (k % 64)) (store_ne addr (nr / 64) w (k / 64) (==→ne (k / 64) (nr / 64) n))
]

pub test_bit-set_bit_ne :
    (nr k : ℕ) (addr : Words) → k ≢ nr → test_bit k (set_bit nr addr) ≡ test_bit k addr
unfolding test_bit set_bit
test_bit-set_bit_ne nr k addr h =
    store_other addr nr k _ h (λ j n. bit-set_one_ne (addr (nr / 64)) (nr % 64) j n)

pub test_bit-clear_bit_ne :
    (nr k : ℕ) (addr : Words) → k ≢ nr → test_bit k (clear_bit nr addr) ≡ test_bit k addr
unfolding test_bit clear_bit
test_bit-clear_bit_ne nr k addr h =
    store_other addr nr k _ h (λ j n. bit-set_zero_ne (addr (nr / 64)) (nr % 64) j n)

-- `test_and_set_bit` is `test_bit` and then `set_bit`
pub test_and_set_bit_lem :
    (nr : ℕ) (addr : Words) → test_and_set_bit nr addr ≡ (test_bit nr addr, set_bit nr addr)
unfolding test_and_set_bit test_bit set_bit
test_and_set_bit_lem nr addr = refl

-- A clear bit that `set_bit` sets and `clear_bit` clears again, or that `test_and_set_bit` takes: the
-- old value of the bit is returned, the bit reads as set between the two calls, and after them every
-- bit reads as before.
pub clear_bit-set_bit :
    (nr : ℕ) (addr : Words)
    → test_bit nr addr ≡ false
    → ((test_and_set_bit nr addr).0 ≡ false)
      × (test_bit nr (test_and_set_bit nr addr).1 ≡ true)
      × ((k : ℕ) → test_bit k (clear_bit nr (test_and_set_bit nr addr).1) ≡ test_bit k addr)
clear_bit-set_bit nr addr h = rw (test_and_set_bit_lem nr addr) (
  h,
  test_bit-set_bit_same nr addr,
  λ k. elim (Bool-cases (k == nr)) [
    | inl e ↦
        ap (λ j. test_bit j (clear_bit nr (set_bit nr addr))) (==→eq k nr e)
        ∙ test_bit-clear_bit_same nr (set_bit nr addr)
        ∙ sym h
        ∙ ap (λ j. test_bit j addr) (sym (==→eq k nr e))
    | inr n ↦
        test_bit-clear_bit_ne nr k (set_bit nr addr) (==→ne k nr n)
        ∙ test_bit-set_bit_ne nr k addr (==→ne k nr n)
  ],
)
