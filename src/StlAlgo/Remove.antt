-- ===== src/StlAlgo/Remove.antt =====
-- `__remove` of stl_algo/stl_algo.h moves the elements that stay to the front.
use linux_cpp.Prelude.{
  if_elim, ℕ, zero, suc, ◌+◌, ◌-◌, ◌≤◌, ◌<◌, ◌≡◌, refl, sym, ap, ◌∙◌, inl, inr, not, List, [], ◌∷◌,
  ◌++◌, append-nil, append_assoc, length, get_or, set, take, drop, length-set, ◌==◌, if◌then◌else◌,
  Bool-cases, ==→eq, ==→ne, eq→==, arith,
}
use linux_cpp.StlAlgo.{Removal, returned, no_return, find, remove_loop, remove}
use linux_cpp.StlAlgo.Find.{count, find-count, find-length, find-StartsWith, StartsWith}

abbrev pub without : ℕ → List ℕ → List ℕ
without v [] = []
without v (x ∷ xs) = if not (x == v) then x ∷ without v xs else without v xs

pub take-set :
    {A : Type 0}
    → (m : List A) (w : ℕ) (a : A) → w < length m
    → take (suc w) (set m w a) ≡ take w m ++ (a ∷ [])
take-set [] w a h = absurd (omega arith)
take-set (x ∷ m) zero a h = refl
take-set (x ∷ m) (suc w) a h = ap (λ t. x ∷ t) (take-set m w a (omega arith))

pub drop-set : {A : Type 0} → (m : List A) (w p : ℕ) (a : A) → w < p → drop p (set m w a) ≡ drop p m
drop-set [] w p a h = refl
drop-set (x ∷ m) w zero a h = absurd (omega arith)
drop-set (x ∷ m) zero (suc p) a h = refl
drop-set (x ∷ m) (suc w) (suc p) a h = drop-set m w p a (omega arith)

pub drop-get_or :
    {A : Type 0}
    → (m : List A) (p : ℕ) (d : A) → p < length m
    → drop p m ≡ get_or m p d ∷ drop (suc p) m
drop-get_or [] p d h = absurd (omega arith)
drop-get_or (x ∷ m) zero d h = refl
drop-get_or (x ∷ m) (suc p) d h = drop-get_or m p d (omega arith)

pub drop_all : {A : Type 0} → (m : List A) (p : ℕ) → length m ≤ p → drop p m ≡ []
drop_all [] zero h = refl
drop_all [] (suc p) h = refl
drop_all (x ∷ m) zero h = absurd (omega arith)
drop_all (x ∷ m) (suc p) h = drop_all m p (omega arith)

-- what the loop leaves in front of the place that it reaches
abbrev Kept : List ℕ → List ℕ × ℕ → Type 0
Kept kept (m', w') = take w' m' ≡ kept

loop-Kept :
    (left : ℕ) (m : List ℕ) (v w p : ℕ)
    → p + left ≡ length m
    → w < p
    → Kept (take w m ++ without v (drop p m)) (remove_loop left m v w p)
unfolding remove_loop
loop-Kept zero m v w p e h = rw (drop_all m p (omega arith)) (sym (append-nil (take w m)))
loop-Kept (suc left) m v w p e h =
    let a = get_or m p 0 in
    let next : drop p m ≡ a ∷ drop (suc p) m = drop-get_or m p 0 (omega arith) in
    elim (Bool-cases (a == v)) [
      | inl t ↦ rw (t, next, t) (loop-Kept left m v w (suc p) (omega arith) (omega arith))
      | inr t ↦
          let rest =
            loop-Kept left (set m w a) v (suc w) (suc p) (omega (arith, length-set m w a))
              (omega arith) in
          let moved : Kept (take w m ++ a ∷ without v (drop (suc p) m))
              (remove_loop left (set m w a) v (suc w) (suc p)) =
            rw
              (
                take-set m w a (omega arith),
                drop-set m w (suc p) a (omega arith),
                append_assoc (take w m) (a ∷ []) (without v (drop (suc p) m)),
              )
              at rest in
          rw (t, next, t) moved
    ]

pub suc_minus : (n k : ℕ) → k ≤ n → suc n - k ≡ suc (n - k)
suc_minus n k h = omega arith

pub minus_self : (n : ℕ) → n - n ≡ 0
minus_self n = omega arith

find-drop : (m : List ℕ) (v : ℕ) → find m v ≡ drop (length m - length (find m v)) m
unfolding find
find-drop [] v = refl
find-drop (x ∷ m) v = elim (Bool-cases (x == v)) [
  | inl e ↦ rw (e, minus_self (suc (length m))) refl
  | inr e ↦ rw (e, suc_minus (length m) (length (find m v)) (find-length m v)) (find-drop m v)
]

find-without :
    (m : List ℕ) (v : ℕ)
    → without v m ≡ take (length m - length (find m v)) m ++ without v (find m v)
unfolding find
find-without [] v = refl
find-without (x ∷ m) v = elim (Bool-cases (x == v)) [
  | inl e ↦ rw (e, minus_self (suc (length m)), e) refl
  | inr e ↦
      rw (e, suc_minus (length m) (length (find m v)) (find-length m v))
        (ap (λ t. x ∷ t) (find-without m v))
]

-- nothing stays of the element found
without-head :
    (xs : List ℕ) (v x : ℕ) (s : List ℕ) → StartsWith v xs → xs ≡ x ∷ s → without v xs ≡ without v s
without-head xs v x s h e = let q : x ≡ v = rw e at h in rw (e, eq→== x v q) refl

find-first :
    (m : List ℕ) (v at : ℕ)
    → at ≡ length m - length (find m v)
    → at < length m
    → without v m ≡ take at m ++ without v (drop (suc at) m)
find-first m v at e h =
    let cut : find m v ≡ get_or m at 0 ∷ drop (suc at) m =
      find-drop m v ∙ ap (λ k. drop k m) (sym e) ∙ drop-get_or m at 0 h in
    rw (find-without m v, ← e)
      (ap (λ t. take at m ++ t)
        (without-head (find m v) v (get_or m at 0) (drop (suc at) m) (find-StartsWith m v) cut))

-- where `find` stops at an element, one equals the value
found_counts :
    (xs : List ℕ) (v : ℕ) {c : ℕ} → StartsWith v xs → 0 < length xs → count v xs ≡ c → 0 < c
found_counts [] v h l e = absurd (omega (arith, l))
found_counts (x ∷ xs) v h l e = let w = rw (eq→== x v h) at e in omega (arith, w)

-- what `__remove` does to the range `m` until it ends
abbrev pub Removes : List ℕ → ℕ → Removal → Type 0
Removes m v (returned m' at) = (count v m ≡ 0) × (m' ≡ m) × (at ≡ length m)
Removes m v (no_return m' at) = (0 < count v m) × (take at m' ≡ without v m)

-- `__remove( first, last, val )` returns the end, with the range as it was, if no element equals `val`.
-- If one does, control reaches the end of the function with no return, which is undefined; until then
-- the elements in front of the place that the code has reached are those of the range that differ from
-- `val`, in their order.
pub remove-Removes : (m : List ℕ) (v : ℕ) → Removes m v (remove m v)
unfolding remove
remove-Removes m v =
    let at = length m - length (find m v) in
    if_elim (Removes m v) (at == length m) _ _
      (λ t.
        let here : find m v ≡ [] =
          find-drop m v ∙ drop_all m at (omega (arith, ==→eq at (length m) t)) in
        (sym (find-count m v) ∙ ap (count v) here, refl, refl))
      (λ t.
        let short : at < length m = ground (arith, ==→ne at (length m) t) in
        (
          found_counts (find m v) v (find-StartsWith m v) (omega (arith, short)) (find-count m v),
          loop-Kept (length m - suc at) m v at (suc at) (omega arith) (omega arith)
              ∙ sym (find-first m v at refl short),
        ))
