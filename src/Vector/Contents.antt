-- ===== src/Vector/Contents.antt =====
-- The elements of a vector of mvector/mvector.h as a list, and lists that are equal element by element.
use linux_cpp.Prelude.{
  ℕ, zero, suc, ◌+◌, ◌-◌, ◌≤◌, ◌<◌, ◌≡◌, refl, ap, ap₂, ◌∙◌, List, [], ◌∷◌, ◌++◌, length,
  length-take, length-drop, take, drop, get_or, set, get_or-take, get_or-drop, arith,
}
use native.Mathlib.Nat.{suc-add}
use linux_cpp.Vector.{Vector}

module _ {A : Type 0} where
  abbrev pub contents : Vector A → List A
  contents v = take v.sz v.block

  pub record IsValid (v : Vector A) : Type 0 where
    pub whole : length v.block ≡ v.cap
    pub fits : v.sz ≤ v.cap
    pub ends : v.end ≡ v.sz
    pub stored : v.storage ≡ v.cap

  pub list_ext :
      (xs ys : List A) (d : A)
      → length xs ≡ length ys
      → ((j : ℕ) → j < length xs → get_or xs j d ≡ get_or ys j d)
      → xs ≡ ys
  list_ext [] [] d e h = refl
  list_ext [] (y ∷ ys) d e h = absurd (omega arith)
  list_ext (x ∷ xs) [] d e h = absurd (omega arith)
  list_ext (x ∷ xs) (y ∷ ys) d e h =
      ap₂ ◌∷◌ (h 0 (omega arith)) (list_ext xs ys d (omega arith) (λ j l. h (suc j) (omega arith)))

  pub get_or-append_left :
      (xs ys : List A) (j : ℕ) (d : A) → j < length xs → get_or (xs ++ ys) j d ≡ get_or xs j d
  get_or-append_left [] ys j d h = absurd (omega arith)
  get_or-append_left (x ∷ xs) ys zero d h = refl
  get_or-append_left (x ∷ xs) ys (suc j) d h = get_or-append_left xs ys j d (omega arith)

  pub get_or-append_right :
      (xs ys : List A) (j : ℕ) (d : A)
      → length xs ≤ j
      → get_or (xs ++ ys) j d ≡ get_or ys (j - length xs) d
  get_or-append_right [] ys j d h = ap (λ k. get_or ys k d) (omega arith)
  get_or-append_right (x ∷ xs) ys zero d h = absurd (omega arith)
  get_or-append_right (x ∷ xs) ys (suc j) d h =
      get_or-append_right xs ys j d (omega arith) ∙ ap (λ k. get_or ys k d) (omega arith)

  pub take-set :
      (xs : List A) (n : ℕ) (t : A)
      → n < length xs
      → take (n + 1) (set xs n t) ≡ take n xs ++ (t ∷ [])
  take-set [] n t h = absurd (omega arith)
  take-set (x ∷ xs) zero t h = refl
  take-set (x ∷ xs) (suc n) t h = rw suc-add (ap (λ ys. x ∷ ys) (take-set xs n t (omega arith)))

  -- an element of a part of a block
  pub get_or-slice :
      (xs : List A) (i n j : ℕ) (d : A)
      → j < n
      → get_or (take n (drop i xs)) j d ≡ get_or xs (i + j) d
  get_or-slice xs i n j d h = get_or-take n j (drop i xs) d h ∙ get_or-drop i j xs d

  pub length-slice : (xs : List A) (i n : ℕ) → i + n ≤ length xs → length (take n (drop i xs)) ≡ n
  length-slice xs i n h = omega (arith, length-take n (drop i xs), length-drop i xs)
