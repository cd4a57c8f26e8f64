-- ===== src/StlAlgo/Shuffle.antt =====
-- `__shuffle` of stl_algo/stl_algo.h rearranges a range.
use linux_cpp.Prelude.{
  ℕ, zero, suc, ◌+◌, ◌-◌, ◌%◌, ◌<◌, ◌≡◌, ◌≢◌, refl, sym, ◌∙◌, inl, inr, List, [], ◌∷◌, length,
  get_or, set, length-set, get_or-set_ne, ◌==◌, if◌then◌else◌, Bool-cases, ==→ne, arith,
}
use linux_cpp.StlAlgo.{iter_swap, shuffle_loop, shuffle}
use linux_cpp.StlAlgo.Find.{count}

one : ℕ → ℕ → ℕ
one v x = if x == v then 1 else 0

count-set :
    (v : ℕ) (m : List ℕ) (i a : ℕ)
    → i < length m
    → count v (set m i a) + one v (get_or m i 0) ≡ count v m + one v a
unfolding one
count-set v [] i a h = absurd (omega arith)
count-set v (x ∷ m) zero a h = ground arith
count-set v (x ∷ m) (suc i) a h = ground (arith, count-set v m i a (omega arith))

count-iter_swap :
    (v : ℕ) (m : List ℕ) (i j : ℕ)
    → i ≢ j
    → i < length m
    → j < length m
    → count v (iter_swap m i j) ≡ count v m
unfolding iter_swap
count-iter_swap v m i j ne h h' =
    let a = get_or m i 0 in
    let b = get_or m j 0 in
    let first = count-set v m i b h in
    let second = count-set v (set m i b) j a (omega (arith, length-set m i b)) in
    let other : get_or (set m i b) j 0 ≡ b = get_or-set_ne m i j b 0 ne in
    omega (arith, first, rw other at second)

length-iter_swap : (m : List ℕ) (i j : ℕ) → length (iter_swap m i j) ≡ length m
unfolding iter_swap
length-iter_swap m i j =
    length-set (set m i (get_or m j 0)) j (get_or m i 0) ∙ length-set m i (get_or m j 0)

loop-count :
    (left : ℕ) (m : List ℕ) (rand : ℕ → ℕ) (i v : ℕ)
    → i + left ≡ length m
    → count v (shuffle_loop left m rand i) ≡ count v m
unfolding shuffle_loop
loop-count zero m rand i v e = refl
loop-count (suc left) m rand i v e =
    let j = rand i % (i + 1) in
    elim (Bool-cases (i == j)) [
      | inl t ↦ rw t (loop-count left m rand (suc i) v (omega arith))
      | inr t ↦
          let ne = ==→ne i j t in
          let step = count-iter_swap v m j i (λ q. ne (sym q)) (omega arith) (omega arith) in
          rw t (
            loop-count left (iter_swap m j i) rand (suc i) v (omega (arith, length-iter_swap m j i))
            ∙ step)
    ]

-- `__shuffle` keeps every element as often as it was there, whatever numbers `rand` returns.
pub shuffle-count : (m : List ℕ) (rand : ℕ → ℕ) (v : ℕ) → count v (shuffle m rand) ≡ count v m
unfolding shuffle shuffle_loop
shuffle-count [] rand v = refl
shuffle-count (x ∷ m) rand v = loop-count (length (x ∷ m) - 1) (x ∷ m) rand 1 v (omega arith)
