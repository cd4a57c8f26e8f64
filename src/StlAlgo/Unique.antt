-- ===== src/StlAlgo/Unique.antt =====
-- `find_adjacent` and `__unique` of stl_algo/stl_algo.h.
use linux_cpp.Prelude.{
  ℕ, zero, suc, ◌+◌, ◌-◌, ◌≤◌, ◌<◌, ◌≡◌, ◌≢◌, refl, sym, ap, ap₂, ◌∙◌, inl, inr, not, List, [], ◌∷◌,
  ◌++◌, append-nil, append_assoc, length, get_or, set, take, drop, length-set, length-take,
  length-drop, get_or-set_self, take_all, ◌==◌, if◌then◌else◌, Bool-cases, ==→eq, ==→ne, eq→==,
  ne→==, arith,
}
use linux_cpp.StlAlgo.{find_adjacent_loop, find_adjacent, unique_loop, unique}
use linux_cpp.StlAlgo.Remove.{take-set, drop-set, drop-get_or, drop_all, suc_minus, minus_self}

-- one element for each run of equal ones
abbrev pub dedup_from : ℕ → List ℕ → List ℕ
dedup_from x [] = []
dedup_from x (y ∷ ys) = if not (y == x) then y ∷ dedup_from y ys else dedup_from x ys

abbrev pub dedup : List ℕ → List ℕ
dedup [] = []
dedup (x ∷ xs) = x ∷ dedup_from x xs

abbrev Kept : List ℕ → List ℕ × ℕ → Type 0
Kept kept (m', w') = take w' m' ≡ kept

loop-Kept :
    (left : ℕ) (m : List ℕ) (w p : ℕ)
    → p + left ≡ length m
    → w < p
    → Kept (take (suc w) m ++ dedup_from (get_or m w 0) (drop p m)) (unique_loop left m w p)
unfolding unique_loop
loop-Kept zero m w p e h = rw (drop_all m p (omega arith)) (sym (append-nil (take (suc w) m)))
loop-Kept (suc left) m w p e h =
    let a = get_or m p 0 in
    let next : drop p m ≡ a ∷ drop (suc p) m = drop-get_or m p 0 (omega arith) in
    elim (Bool-cases (a == get_or m w 0)) [
      | inl t ↦ rw (t, next, t) (loop-Kept left m w (suc p) (omega arith) (omega arith))
      | inr t ↦
          let rest =
            loop-Kept left (set m (suc w) a) (suc w) (suc p) (omega (arith, length-set m (suc w) a))
              (omega arith) in
          let moved : Kept (take (suc w) m ++ a ∷ dedup_from a (drop (suc p) m))
              (unique_loop left (set m (suc w) a) (suc w) (suc p)) =
            rw
              (
                take-set m (suc w) a (omega arith),
                drop-set m (suc w) (suc p) a (omega arith),
                get_or-set_self m (suc w) a 0 (omega arith),
                append_assoc (take (suc w) m) (a ∷ []) (dedup_from a (drop (suc p) m)),
              )
              at rest in
          rw (t, next, t) moved
    ]

-- what `find_adjacent` returns: the end, or a place at which two elements are equal
abbrev StartsTwice : List ℕ → Type 0
StartsTwice [] = 0 ≤ 0
StartsTwice (x ∷ []) = ⊥
StartsTwice (x ∷ y ∷ ys) = y ≡ x

loop-StartsTwice : (x : ℕ) (ys : List ℕ) → StartsTwice (find_adjacent_loop x ys)
unfolding find_adjacent_loop
loop-StartsTwice x [] = omega arith
loop-StartsTwice x (y ∷ ys) = elim (Bool-cases (y == x)) [
  | inl e ↦ rw e (==→eq y x e)
  | inr e ↦ rw e (loop-StartsTwice y ys)
]

loop-length : (x : ℕ) (ys : List ℕ) → length (find_adjacent_loop x ys) ≤ length (x ∷ ys)
unfolding find_adjacent_loop
loop-length x [] = omega arith
loop-length x (y ∷ ys) = ground (arith, loop-length y ys)

loop-drop :
    (x : ℕ) (ys : List ℕ)
    → find_adjacent_loop x ys ≡ drop (length (x ∷ ys) - length (find_adjacent_loop x ys)) (x ∷ ys)
unfolding find_adjacent_loop
loop-drop x [] = sym (drop_all (x ∷ []) (1 - 0) (omega arith))
loop-drop x (y ∷ ys) = elim (Bool-cases (y == x)) [
  | inl e ↦ rw (e, minus_self (length (x ∷ y ∷ ys))) refl
  | inr e ↦
      rw (e, suc_minus (length (y ∷ ys)) (length (find_adjacent_loop y ys)) (loop-length y ys))
        (loop-drop y ys)
]

loop-dedup :
    (x : ℕ) (ys : List ℕ)
    → dedup (x ∷ ys)
      ≡ take (length (x ∷ ys) - length (find_adjacent_loop x ys)) (x ∷ ys)
        ++ dedup (find_adjacent_loop x ys)
unfolding find_adjacent_loop
loop-dedup x [] = ap (λ t. t ++ []) (sym (take_all (x ∷ []) (1 - 0) (omega arith)))
loop-dedup x (y ∷ ys) = elim (Bool-cases (y == x)) [
  | inl e ↦ rw (e, minus_self (length (x ∷ y ∷ ys)), e) refl
  | inr e ↦
      rw (e, suc_minus (length (y ∷ ys)) (length (find_adjacent_loop y ys)) (loop-length y ys))
        (ap (λ t. x ∷ t) (loop-dedup y ys))
]

adjacent-loop : (x : ℕ) (ys : List ℕ) → find_adjacent (x ∷ ys) ≡ find_adjacent_loop x ys
unfolding find_adjacent find_adjacent_loop
adjacent-loop x [] = refl
adjacent-loop x (y ∷ ys) = refl

adjacent-drop : (m : List ℕ) → find_adjacent m ≡ drop (length m - length (find_adjacent m)) m
unfolding find_adjacent
adjacent-drop [] = refl
adjacent-drop (x ∷ ys) = rw (adjacent-loop x ys) (loop-drop x ys)

adjacent-dedup :
    (m : List ℕ) → dedup m ≡ take (length m - length (find_adjacent m)) m ++ dedup (find_adjacent m)
unfolding find_adjacent
adjacent-dedup [] = refl
adjacent-dedup (x ∷ ys) = rw (adjacent-loop x ys) (loop-dedup x ys)

-- `find_adjacent` returns the end, or a place at which two equal elements stand.
pub find_adjacent-StartsTwice : (m : List ℕ) → StartsTwice (find_adjacent m)
unfolding find_adjacent
find_adjacent-StartsTwice [] = omega arith
find_adjacent-StartsTwice (x ∷ ys) = rw (adjacent-loop x ys) (loop-StartsTwice x ys)

dedup-twice :
    (s : List ℕ) (a b : ℕ) (rest : List ℕ)
    → StartsTwice s
    → s ≡ a ∷ b ∷ rest
    → dedup s ≡ a ∷ dedup_from a rest
dedup-twice s a b rest h e = let q : b ≡ a = rw e at h in rw (e, eq→== b a q) refl

take-suc : (m : List ℕ) (at : ℕ) → at < length m → take (suc at) m ≡ take at m ++ get_or m at 0 ∷ []
take-suc [] at h = absurd (omega arith)
take-suc (x ∷ m) zero h = refl
take-suc (x ∷ m) (suc at) h = ap (λ t. x ∷ t) (take-suc m at (omega arith))

adjacent-found :
    (m : List ℕ) (at : ℕ)
    → at ≡ length m - length (find_adjacent m)
    → at + 2 ≤ length m
    → dedup m ≡ take (suc at) m ++ dedup_from (get_or m at 0) (drop (at + 2) m)
adjacent-found m at e h =
    let a = get_or m at 0 in
    let two : suc (suc at) ≡ at + 2 = omega arith in
    let rest = drop (suc (suc at)) m in
    let pair : drop at m ≡ a ∷ get_or m (suc at) 0 ∷ rest =
      drop-get_or m at 0 (omega arith) ∙ ap (λ t. a ∷ t) (drop-get_or m (suc at) 0 (omega arith)) in
    let cut : find_adjacent m ≡ a ∷ get_or m (suc at) 0 ∷ rest =
      adjacent-drop m ∙ ap (λ k. drop k m) (sym e) ∙ pair in
    let tail : dedup (find_adjacent m) ≡ a ∷ dedup_from a rest =
      dedup-twice (find_adjacent m) a (get_or m (suc at) 0) rest (find_adjacent-StartsTwice m)
        cut in
    rw (← two, take-suc m at (omega arith), append_assoc (take at m) (a ∷ []) (dedup_from a rest))
      (adjacent-dedup m ∙ ap₂ (λ k t. take k m ++ t) (sym e) tail)

twice-length : (s : List ℕ) → StartsTwice s → length s ≢ 1
twice-length [] h = λ e. omega arith
twice-length (x ∷ []) h = λ e. h
twice-length (x ∷ y ∷ ys) h = λ e. omega arith

adjacent-length : (m : List ℕ) → length (find_adjacent m) ≤ length m
adjacent-length m =
    omega (arith, ap length (adjacent-drop m), length-drop (length m - length (find_adjacent m)) m)

adjacent-nowhere : (m : List ℕ) → length m - length (find_adjacent m) ≡ length m → dedup m ≡ m
adjacent-nowhere m e =
    let here : find_adjacent m ≡ [] =
      adjacent-drop m ∙ drop_all m (length m - length (find_adjacent m)) (omega arith) in
    rw (adjacent-dedup m, here)
      (ap (λ t. t ++ []) (take_all m (length m - 0) (omega arith)) ∙ append-nil m)

dedup-length_last :
    (m : List ℕ) (at : ℕ)
    → at ≡ length m - length (find_adjacent m)
    → at + 2 ≡ length m
    → length (dedup m) ≡ suc at
dedup-length_last m at e h =
    let a = get_or m at 0 in
    rw
      (
        adjacent-found m at e (omega arith),
        drop_all m (at + 2) (omega arith),
        append-nil (take (suc at) m),
      )
      (omega (arith, length-take (suc at) m))

-- `__unique` leaves one element of each run of equal ones, unless the first two equal neighbours
-- are the last two elements of the range.
pub unique-dedup :
    (m : List ℕ) → length (find_adjacent m) ≢ 2 → take (unique m).1 (unique m).0 ≡ dedup m
unfolding unique
unique-dedup m h =
    let at = length m - length (find_adjacent m) in
    let b = adjacent-length m in
    let one = twice-length (find_adjacent m) (find_adjacent-StartsTwice m) in
    elim (Bool-cases (at == length m)) [
      | inl t ↦ rw t (take_all m (length m) refl ∙ sym (adjacent-nowhere m (==→eq at (length m) t)))
      | inr t ↦
          let ne = ==→ne at (length m) t in
          rw (t, ne→== (at + 2) (length m) (ground arith))
            (loop-Kept (length m - (at + 2)) m at (at + 2) (ground arith) (omega arith)
              ∙ sym (adjacent-found m at refl (ground arith)))
    ]

-- When the first two equal neighbours are the last two elements of the range, `__unique` keeps both:
-- it returns the end of the range, one element too far.
pub unique_last :
    (m : List ℕ)
    → length (find_adjacent m) ≡ 2
    → (unique m ≡ (m, length m)) × (length m ≡ suc (length (dedup m)))
unfolding unique
unique_last m h =
    let at = length m - length (find_adjacent m) in
    let b = adjacent-length m in
    (
      rw (ne→== at (length m) (omega arith), eq→== (at + 2) (length m) (omega arith)) refl,
      omega (arith, dedup-length_last m at refl (omega arith)),
    )
