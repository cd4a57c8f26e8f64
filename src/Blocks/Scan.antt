-- ===== src/Blocks/Scan.antt =====
-- The two loops of `find_next_bit` of filesystem-block-manager/test.cpp.
use linux_cpp.Prelude.{
  ℕ, zero, suc, ◌+◌, ◌-◌, ◌*◌, ◌/◌, ◌%◌, ◌≤◌, ◌<◌, ◌≡◌, ◌≢◌, inl, inr, refl, sym, ap, ◌∙◌, true,
  false, not, Option, none, some, ◌==◌, ltb, if_elim, Bool-cases, ==→eq, ==→ne, bit, complement,
  above, bit-complement, bit-above_high, bit-nothing, arith,
}
use linux_cpp.Blocks.{Words, test_bit, word_loop, bit_loop}

-- the bits of `addr` from `a` on and before `b` are set
abbrev pub AllSet : Words → ℕ → ℕ → Type 0
AllSet addr a b = (k : ℕ) → a ≤ k → k < b → test_bit k addr ≡ true

pub test_bit_at : (addr : Words) (i j : ℕ) → j < 64 → test_bit (j + i * 64) addr ≡ bit (addr i) j
unfolding test_bit
test_bit_at addr i j h =
    let e : (j + i * 64) / 64 ≡ i = omega arith in
    let e' : (j + i * 64) % 64 ≡ j = omega arith in rw (e, e') refl

-- a word in which the bits from `f` on, 64 in all, are set
word_set :
    (addr : Words) (i f : ℕ)
    → above f (complement 64 (addr i)) ≡ 0
    → AllSet addr (i * 64 + f) (suc i * 64)
word_set addr i f e k l u =
    let j = k - i * 64 in
    let s : k ≡ j + i * 64 = omega arith in
    let b : not (bit (addr i) j) ≡ false =
      sym (bit-complement 64 (addr i) j (omega arith))
      ∙ sym (bit-above_high f (complement 64 (addr i)) j (omega arith))
      ∙ ap (λ w. bit w j) e
      ∙ bit-nothing j in
    ap (λ n. test_bit n addr) s ∙ test_bit_at addr i j (omega arith) ∙ ground (arith, b)

-- what the first loop finds in the words from `i` on
abbrev pub WordHit : Words → ℕ → ℕ → ℕ → Option (ℕ × ℕ) → Type 0
WordHit addr i left f none = AllSet addr (i * 64 + f) ((i + left) * 64)
WordHit addr i left f (some (i', v)) =
    (i' < i + left)
    × (f' : ℕ) × (f' < 64)
    × (v ≡ above f' (complement 64 (addr i')))
    × (v ≢ 0)
    × (i * 64 + f ≤ i' * 64 + f')
    × AllSet addr (i * 64 + f) (i' * 64 + f')

next-WordHit :
    (addr : Words) (i left f : ℕ) (r : Option (ℕ × ℕ))
    → f < 64
    → AllSet addr (i * 64 + f) (suc i * 64)
    → WordHit addr (suc i) left 0 r
    → WordHit addr i (suc left) f r
next-WordHit addr i left f none l a h = λ k m u. elim (Bool-cases (ltb k (suc i * 64))) [
  | inl e ↦ a k m (ground arith)
  | inr e ↦ h k (ground arith) (ground arith)
]
next-WordHit addr i left f (some (i', v)) l a (u, f', l', e, n, m, h) = (
  omega arith,
  f',
  l',
  e,
  n,
  omega arith,
  λ k p q. elim (Bool-cases (ltb k (suc i * 64))) [
    | inl b ↦ a k p (ground arith)
    | inr b ↦ h k (ground arith) q
  ],
)

pub word_loop-WordHit :
    (left : ℕ) (addr : Words) (i f : ℕ) → f < 64 → WordHit addr i left f (word_loop left addr i i f)
unfolding word_loop
word_loop-WordHit zero addr i f l = λ k m u. absurd (omega arith)
word_loop-WordHit (suc left) addr i f l =
    let value = above f (complement 64 (addr i)) in
    if_elim (WordHit addr i (suc left) f) (value == 0) (word_loop left addr (suc i) (suc i) 0)
      (some (i, value))
      (λ e.
        next-WordHit addr i left f (word_loop left addr (suc i) (suc i) 0) l
          (word_set addr i f (==→eq value 0 e))
          (word_loop-WordHit left addr (suc i) 0 (omega arith)))
      (λ n. (omega arith, f, l, refl, ==→ne value 0 n, omega arith, λ k p q. absurd (omega arith)))

-- what the second loop finds in a word
abbrev pub BitHit : ℕ → ℕ → ℕ → Option ℕ → Type 0
BitHit result i left none = (j : ℕ) → i ≤ j → j < i + left → bit result j ≡ true
BitHit result i left (some n) =
    (i ≤ n)
    × (n < i + left)
    × (bit result n ≡ false)
    × ((j : ℕ) → i ≤ j → j < n → bit result j ≡ true)

next-BitHit :
    (result i left : ℕ) (r : Option ℕ)
    → bit result i ≡ true
    → BitHit result (suc i) left r
    → BitHit result i (suc left) r
next-BitHit result i left none b h = λ j l u. elim (Bool-cases (j == i)) [
  | inl e ↦ ap (bit result) (==→eq j i e) ∙ b
  | inr n ↦ h j (ground (arith, ==→ne j i n)) (omega arith)
]
next-BitHit result i left (some m) b (l, u, z, h) = (
  omega arith,
  omega arith,
  z,
  λ j p q. elim (Bool-cases (j == i)) [
    | inl e ↦ ap (bit result) (==→eq j i e) ∙ b
    | inr n ↦ h j (ground (arith, ==→ne j i n)) q
  ],
)

test_bit_of : (i result : ℕ) → i < 64 → test_bit i (λ _. result) ≡ bit result i
unfolding test_bit
test_bit_of i result h = let e : i % 64 ≡ i = omega arith in rw e refl

pub bit_loop-BitHit :
    (left i result : ℕ) → i + left ≤ 64 → BitHit result i left (bit_loop left i result)
unfolding bit_loop
bit_loop-BitHit zero i result h = λ j l u. absurd (omega arith)
bit_loop-BitHit (suc left) i result h =
    let t = test_bit_of i result (omega arith) in
    if_elim (BitHit result i (suc left)) (not (test_bit i (λ _. result))) (some i)
      (bit_loop left (suc i) result)
      (λ e. (omega arith, omega arith, ground (arith, e, t), λ j p q. absurd (omega arith)))
      (λ e.
        next-BitHit result i left (bit_loop left (suc i) result) (ground (arith, e, t))
          (bit_loop-BitHit left (suc i) result (omega arith)))
