-- ===== src/Prelude/Lists.antt =====
-- Lists measured and indexed by native numbers, under the library's names.
use Prim.Native.Nat.{ℕ, zero, suc, ◌+◌, ◌-◌, ◌<◌, ◌≤◌, min}
use mathlib.Core.Path.{◌≡◌, refl, ap, ap₂, ◌∙◌, fun_ext}
use mathlib.Core.Logic.{◌≢◌, ◌⊎◌, inl, inr}
use mathlib.Core.List.{List, [], ◌∷◌, ◌++◌}
use mathlib.Core.Option.{Option, none, some}
use native.Mathlib.Omega.{arith}
use native.Mathlib.Nat.{suc-add, zero-add, zero-sub, suc-sub-suc}

module _ {ℓ} {A : Type ℓ} where
  abbrev pub length : List A → ℕ
  length [] = 0
  length (_ ∷ xs) = suc (length xs)

  abbrev pub get_elem? : List A → ℕ → Option A
  get_elem? [] _ = none
  get_elem? (x ∷ _) zero = some x
  get_elem? (_ ∷ xs) (suc i) = get_elem? xs i

  abbrev pub get_or : List A → ℕ → A → A
  get_or [] _ d = d
  get_or (x ∷ _) zero _ = x
  get_or (_ ∷ xs) (suc i) d = get_or xs i d

  -- A write out of bounds changes nothing.
  abbrev pub set : List A → ℕ → A → List A
  set [] _ _ = []
  set (_ ∷ xs) zero v = v ∷ xs
  set (x ∷ xs) (suc i) v = x ∷ set xs i v

  abbrev pub take : ℕ → List A → List A
  take zero _ = []
  take (suc n) [] = []
  take (suc n) (x ∷ xs) = x ∷ take n xs

  abbrev pub drop : ℕ → List A → List A
  drop zero xs = xs
  drop (suc n) [] = []
  drop (suc n) (_ ∷ xs) = drop n xs

  abbrev pub replicate : ℕ → A → List A
  replicate zero a = []
  replicate (suc n) a = a ∷ replicate n a

  -- `f 0, f 1, …`, `n` of them
  abbrev pub tabulate : (ℕ → A) → ℕ → List A
  tabulate f zero = []
  tabulate f (suc n) = f 0 ∷ tabulate (λ j. f (suc j)) n

module _ {ℓ} {A : Type ℓ} where
  pub length-append : (xs ys : List A) → length (xs ++ ys) ≡ length xs + length ys
  length-append [] ys = omega arith
  length-append (x ∷ xs) ys = omega (arith, length-append xs ys)

  pub length-set : (xs : List A) (i : ℕ) (v : A) → length (set xs i v) ≡ length xs
  length-set [] i v = refl
  length-set (x ∷ xs) zero v = refl
  length-set (x ∷ xs) (suc i) v = ap suc (length-set xs i v)

  pub length-tabulate : (f : ℕ → A) (n : ℕ) → length (tabulate f n) ≡ n
  length-tabulate f zero = refl
  length-tabulate f (suc n) = ap suc (length-tabulate (λ j. f (suc j)) n)

  pub length-take : (n : ℕ) (xs : List A) → length (take n xs) ≡ min n (length xs)
  length-take zero xs = omega arith
  length-take (suc n) [] = omega arith
  length-take (suc n) (x ∷ xs) = omega (arith, length-take n xs)

  pub length-drop : (n : ℕ) (xs : List A) → length (drop n xs) ≡ length xs - n
  length-drop zero xs = omega arith
  length-drop (suc n) [] = omega arith
  length-drop (suc n) (x ∷ xs) = omega (arith, length-drop n xs)

  pub length-replicate : (n : ℕ) (a : A) → length (replicate n a) ≡ n
  length-replicate zero a = refl
  length-replicate (suc n) a = ap suc (length-replicate n a)

  pub get_or-set_self :
      (xs : List A) (i : ℕ) (v d : A) → i < length xs → get_or (set xs i v) i d ≡ v
  get_or-set_self [] i v d h = absurd (omega arith)
  get_or-set_self (x ∷ xs) zero v d h = refl
  get_or-set_self (x ∷ xs) (suc i) v d h = get_or-set_self xs i v d (omega arith)

  pub get_or-set_ne :
      (xs : List A) (i j : ℕ) (v d : A) → i ≢ j → get_or (set xs i v) j d ≡ get_or xs j d
  get_or-set_ne [] i j v d h = refl
  get_or-set_ne (x ∷ xs) zero zero v d h = absurd (h refl)
  get_or-set_ne (x ∷ xs) zero (suc j) v d h = refl
  get_or-set_ne (x ∷ xs) (suc i) zero v d h = refl
  get_or-set_ne (x ∷ xs) (suc i) (suc j) v d h = get_or-set_ne xs i j v d (λ e. h (ap suc e))

  pub get_or-drop : (n i : ℕ) (xs : List A) (d : A) → get_or (drop n xs) i d ≡ get_or xs (n + i) d
  get_or-drop zero i xs d = ap (λ k. get_or xs k d) (omega arith)
  get_or-drop (suc n) i [] d = refl
  get_or-drop (suc n) i (x ∷ xs) d = rw suc-add (get_or-drop n i xs d)

  pub get_or-take : (n i : ℕ) (xs : List A) (d : A) → i < n → get_or (take n xs) i d ≡ get_or xs i d
  get_or-take zero i xs d h = absurd (omega arith)
  get_or-take (suc n) i [] d h = refl
  get_or-take (suc n) zero (x ∷ xs) d h = refl
  get_or-take (suc n) (suc i) (x ∷ xs) d h = get_or-take n i xs d (omega arith)

  pub tabulate_ext :
      (f g : ℕ → A) (n : ℕ) → ((j : ℕ) → j < n → f j ≡ g j) → tabulate f n ≡ tabulate g n
  tabulate_ext f g zero h = refl
  tabulate_ext f g (suc n) h =
      ap₂ ◌∷◌ (h 0 (omega arith))
        (tabulate_ext (λ j. f (suc j)) (λ j. g (suc j)) n (λ j p. h (suc j) (omega arith)))

  pub tabulate-append :
      (f g : ℕ → A) (n m : ℕ)
      → ((j : ℕ) → j < m → f (n + j) ≡ g j)
      → tabulate f (n + m) ≡ tabulate f n ++ tabulate g m
  tabulate-append f g zero m h = rw zero-add (tabulate_ext f g m (λ j p. rw zero-add at (h j p)))
  tabulate-append f g (suc n) m h =
      rw suc-add
        (ap (λ t. f 0 ∷ t) (tabulate-append (λ j. f (suc j)) g n m (λ j p. rw suc-add at (h j p))))

  pub take-tabulate : (f : ℕ → A) (k n : ℕ) → k ≤ n → take k (tabulate f n) ≡ tabulate f k
  take-tabulate f zero n h = refl
  take-tabulate f (suc k) zero h = absurd (omega arith)
  take-tabulate f (suc k) (suc n) h =
      ap (λ t. f 0 ∷ t) (take-tabulate (λ j. f (suc j)) k n (omega arith))

  pub drop-tabulate :
      (f : ℕ → A) (k n : ℕ) → drop k (tabulate f n) ≡ tabulate (λ j. f (k + j)) (n - k)
  drop-tabulate f zero n = ap₂ (λ g. tabulate g) (fun_ext (λ j. ap f (omega arith))) (omega arith)
  drop-tabulate f (suc k) zero = rw (zero-sub, tabulate)
  drop-tabulate f (suc k) (suc n) =
      rw suc-sub-suc
        (drop-tabulate (λ j. f (suc j)) k n ∙ tabulate_ext _ _ _ (λ j p. ap f (omega arith)))

  pub take-eq-tabulate :
      (n : ℕ) (xs : List A) (d : A) → n ≤ length xs → take n xs ≡ tabulate (λ j. get_or xs j d) n
  take-eq-tabulate zero xs d h = refl
  take-eq-tabulate (suc n) [] d h = absurd (omega arith)
  take-eq-tabulate (suc n) (x ∷ xs) d h = ap (λ t. x ∷ t) (take-eq-tabulate n xs d (omega arith))

  pub take_all : (xs : List A) (n : ℕ) → n ≡ length xs → take n xs ≡ xs
  take_all [] n e = rw e
  take_all (x ∷ xs) zero e = absurd (omega arith)
  take_all (x ∷ xs) (suc n) e = ap (λ t. x ∷ t) (take_all xs n (omega arith))

  pub take-append-drop : (n : ℕ) (xs : List A) → take n xs ++ drop n xs ≡ xs
  take-append-drop zero xs = refl
  take-append-drop (suc n) [] = refl
  take-append-drop (suc n) (x ∷ xs) = ap (λ t. x ∷ t) (take-append-drop n xs)

module _ {ℓ} {A : Type ℓ} where
  pub get_or-splice_left :
      (i : ℕ) (xs ys : List A) (k : ℕ) (d : A)
      → k < i
      → i ≤ length xs
      → get_or (take i xs ++ ys) k d ≡ get_or xs k d
  get_or-splice_left zero xs ys k d h l = absurd (omega arith)
  get_or-splice_left (suc i) [] ys k d h l = absurd (omega arith)
  get_or-splice_left (suc i) (x ∷ xs) ys zero d h l = refl
  get_or-splice_left (suc i) (x ∷ xs) ys (suc k) d h l =
      get_or-splice_left i xs ys k d (omega arith) (omega arith)

  pub get_or-splice_right :
      (i : ℕ) (xs ys : List A) (j : ℕ) (d : A)
      → i ≤ length xs
      → get_or (take i xs ++ ys) (i + j) d ≡ get_or ys j d
  get_or-splice_right zero xs ys j d l = ap (λ n. get_or ys n d) (omega arith)
  get_or-splice_right (suc i) [] ys j d l = absurd (omega arith)
  get_or-splice_right (suc i) (x ∷ xs) ys j d l =
      rw suc-add (get_or-splice_right i xs ys j d (omega arith))

  pub get_or-replicate_same : (n : ℕ) (a : A) (k : ℕ) → get_or (replicate n a) k a ≡ a
  get_or-replicate_same zero a k = refl
  get_or-replicate_same (suc n) a zero = refl
  get_or-replicate_same (suc n) a (suc k) = get_or-replicate_same n a k

-- `a` stands in the list: the place at which it stands.
abbrev pub In : {A : Type 0} → A → List A → Type 0
In a [] = ⊥
In a (x ∷ xs) = (a ≡ x) ⊎ In a xs

pub In-append_left : {A : Type 0} → (a : A) (xs ys : List A) → In a xs → In a (xs ++ ys)
In-append_left a [] ys h = absurd h
In-append_left a (x ∷ xs) ys (inl e) = inl e
In-append_left a (x ∷ xs) ys (inr h) = inr (In-append_left a xs ys h)

pub In-append_right : {A : Type 0} → (a : A) (xs ys : List A) → In a ys → In a (xs ++ ys)
In-append_right a [] ys h = h
In-append_right a (x ∷ xs) ys h = inr (In-append_right a xs ys h)
