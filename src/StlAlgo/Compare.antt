-- ===== src/StlAlgo/Compare.antt =====
-- The two `equal` of stl_algo/stl_algo.h.
use linux_cpp.Prelude.{
  ℕ, ◌≡◌, ◌↔◌, refl, ap₂, inl, inr, true, some, List, [], ◌∷◌, ◌++◌, length, ◌==◌, Bool-cases,
  ==→eq, eq→==, arith,
}
use linux_cpp.StlAlgo.{equal3, equal4}

equal4-eq : (xs ys : List ℕ) → equal4 xs ys ≡ true → xs ≡ ys
unfolding equal4
equal4-eq [] [] h = refl
equal4-eq [] (y ∷ ys) h = ground arith
equal4-eq (x ∷ xs) [] h = ground arith
equal4-eq (x ∷ xs) (y ∷ ys) h = elim (Bool-cases (x == y)) [
  | inl e ↦ ap₂ ◌∷◌ (==→eq x y e) (equal4-eq xs ys (rw e at h))
  | inr e ↦ ground (arith, rw e at h)
]

equal4_refl : (xs : List ℕ) → equal4 xs xs ≡ true
unfolding equal4
equal4_refl [] = refl
equal4_refl (x ∷ xs) = rw (eq→== x x refl) (equal4_refl xs)

-- `equal` with four iterators answers true exactly if the two ranges hold the same elements in the
-- same order.
pub equal4_correct : (xs ys : List ℕ) → (equal4 xs ys ≡ true) ↔ (xs ≡ ys)
equal4_correct xs ys = (equal4-eq xs ys, λ e. rw e (equal4_refl ys))

-- `equal` with three iterators, when the second sequence is at least as long as the first range.
pub equal3-equal4 :
    (xs ys zs : List ℕ) → length xs ≡ length ys → equal3 xs (ys ++ zs) ≡ some (equal4 xs ys)
unfolding equal3 equal4
equal3-equal4 [] [] zs h = refl
equal3-equal4 [] (y ∷ ys) zs h = absurd (omega arith)
equal3-equal4 (x ∷ xs) [] zs h = absurd (omega arith)
equal3-equal4 (x ∷ xs) (y ∷ ys) zs h = elim (Bool-cases (x == y)) [
  | inl e ↦ rw e (equal3-equal4 xs ys zs (omega arith))
  | inr e ↦ rw e refl
]
