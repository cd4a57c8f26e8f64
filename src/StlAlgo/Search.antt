-- ===== src/StlAlgo/Search.antt =====
-- `__search` of stl_algo/stl_algo.h: the first place at which a sequence occurs.
use linux_cpp.Prelude.{
  ℕ, zero, suc, ◌≤◌, ◌<◌, ◌≡◌, ◌↔◌, inl, inr, refl, sym, ap, ◌∙◌, Bool, true, false, Option, none,
  some, List, [], ◌∷◌, length, ◌==◌, if◌then◌else◌, Bool-cases, List-cases, eq→==, arith,
}
use linux_cpp.StlAlgo.{null, find, match_run, search_loop, search}
use linux_cpp.StlAlgo.Find.{find-length}

-- whether the sequence stands at the start of a list
abbrev pub prefix : List ℕ → List ℕ → Bool
prefix [] xs = true
prefix (y ∷ ys) [] = false
prefix (y ∷ ys) (x ∷ xs) = if x == y then prefix ys xs else false

-- The first place at which `ys` stands: every earlier place has been looked at.
pub data IsFirst (ys : List ℕ) : List ℕ → List ℕ → Type 0 where
  missing : IsFirst ys [] []
  here : (xs : List ℕ) → prefix ys xs ≡ true → IsFirst ys xs xs
  later :
      (x : ℕ) (xs r : List ℕ) → prefix ys (x ∷ xs) ≡ false → IsFirst ys xs r → IsFirst ys (x ∷ xs) r

abbrev pub Finds : List ℕ → List ℕ → Option (List ℕ) → Type 0
Finds ys xs none = ⊥
Finds ys xs (some r) = IsFirst ys xs r

match_run-prefix : (xs ys : List ℕ) → null (match_run xs ys).1 ≡ prefix ys xs
unfolding match_run
match_run-prefix [] [] = refl
match_run-prefix [] (y ∷ ys) = refl
match_run-prefix (x ∷ xs) [] = refl
match_run-prefix (x ∷ xs) (y ∷ ys) = elim (Bool-cases (x == y)) [
  | inl e ↦ rw e (match_run-prefix xs ys)
  | inr e ↦ rw e refl
]

match_run-short :
    (xs ys : List ℕ)
    → null (match_run xs ys).1 ≡ false
    → null (match_run xs ys).0 ≡ true
    → length xs < length ys
unfolding match_run
match_run-short [] [] p q = ground arith
match_run-short [] (y ∷ ys) p q = omega arith
match_run-short (x ∷ xs) [] p q = ground arith
match_run-short (x ∷ xs) (y ∷ ys) p q = ground (arith, match_run-short xs ys)

short-prefix : (xs ys : List ℕ) → length xs < length ys → prefix ys xs ≡ false
short-prefix [] [] h = absurd (omega arith)
short-prefix [] (y ∷ ys) h = refl
short-prefix (x ∷ xs) [] h = absurd (omega arith)
short-prefix (x ∷ xs) (y ∷ ys) h = ground (arith, short-prefix xs ys (omega arith))

short-IsFirst : (xs ys : List ℕ) → length xs < length ys → IsFirst ys xs []
short-IsFirst [] ys h = missing
short-IsFirst (x ∷ xs) ys h =
    later x xs [] (short-prefix (x ∷ xs) ys h) (short-IsFirst xs ys (omega arith))

find-IsFirst :
    (xs : List ℕ) (y : ℕ) (ys r : List ℕ) → IsFirst (y ∷ ys) (find xs y) r → IsFirst (y ∷ ys) xs r
unfolding find
find-IsFirst [] y ys r h = h
find-IsFirst (x ∷ xs) y ys r h = elim (Bool-cases (x == y)) [
  | inl e ↦ rw e at h
  | inr e ↦ later x xs r (rw e refl) (find-IsFirst xs y ys r (rw e at h))
]

find-Finds :
    (xs : List ℕ) (y : ℕ) (ys : List ℕ) (r : Option (List ℕ))
    → Finds (y ∷ ys) (find xs y) r
    → Finds (y ∷ ys) xs r
find-Finds xs y ys none h = h
find-Finds xs y ys (some r) h = find-IsFirst xs y ys r h

Finds-later :
    (ys : List ℕ) (x : ℕ) (xs : List ℕ) (r : Option (List ℕ))
    → prefix ys (x ∷ xs) ≡ false
    → Finds ys xs r
    → Finds ys (x ∷ xs) r
Finds-later ys x xs none e h = h
Finds-later ys x xs (some r) e h = later x xs r e h

loop_end :
    (fuel : ℕ) (xs : List ℕ) (y : ℕ) (ys : List ℕ)
    → find xs y ≡ []
    → search_loop (suc fuel) xs y ys ≡ some []
unfolding search_loop
loop_end fuel xs y ys e = rw (search_loop, e) refl

search_after : ℕ → ℕ → List ℕ → ℕ → List ℕ → List ℕ × List ℕ → Option (List ℕ)
search_after fuel x s y ys (cs, ps) =
    if null ps then some (x ∷ s) else if null cs then some [] else search_loop fuel s y ys

loop_found :
    (fuel : ℕ) (xs : List ℕ) (y : ℕ) (ys : List ℕ) (x : ℕ) (s : List ℕ)
    → find xs y ≡ x ∷ s
    → search_loop (suc fuel) xs y ys ≡ search_after fuel x s y ys (match_run (x ∷ s) (y ∷ ys))
unfolding search_loop search_after
loop_found fuel xs y ys x s e = rw (search_loop, e) refl

after-Finds :
    (fuel x : ℕ) (s : List ℕ) (y : ℕ) (ys : List ℕ)
    → Finds (y ∷ ys) s (search_loop fuel s y ys)
    → Finds (y ∷ ys) (x ∷ s) (search_after fuel x s y ys (match_run (x ∷ s) (y ∷ ys)))
unfolding search_after
after-Finds fuel x s y ys again =
    let r = match_run (x ∷ s) (y ∷ ys) in
    let p = match_run-prefix (x ∷ s) (y ∷ ys) in
    elim (Bool-cases (null r.1)) [
      | inl e ↦ rw e (here (x ∷ s) (sym p ∙ e))
      | inr e ↦ elim (Bool-cases (null r.0)) [
        | inl e' ↦
            rw (e, e') (short-IsFirst (x ∷ s) (y ∷ ys) (match_run-short (x ∷ s) (y ∷ ys) e e'))
        | inr e' ↦ rw (e, e') (Finds-later (y ∷ ys) x s (search_loop fuel s y ys) (sym p ∙ e) again)
      ]
    ]

loop-Finds :
    (fuel : ℕ) (xs : List ℕ) (y : ℕ) (ys : List ℕ)
    → length xs < fuel
    → Finds (y ∷ ys) xs (search_loop fuel xs y ys)
loop-Finds zero xs y ys h = absurd (omega arith)
loop-Finds (suc fuel) xs y ys h = elim (List-cases (find xs y)) [
  | inl e ↦ rw (loop_end fuel xs y ys e) (find-IsFirst xs y ys [] (rw e missing))
  | inr (x, s, e) ↦
      let shorter : length s < fuel = omega (arith, ap length e, find-length xs y) in
      let r = search_after fuel x s y ys (match_run (x ∷ s) (y ∷ ys)) in
      rw (loop_found fuel xs y ys x s e)
        (find-Finds xs y ys r (rw e (after-Finds fuel x s y ys (loop-Finds fuel s y ys shorter))))
]

-- `__search` for a sequence of two or more elements returns, without running out of fuel, the first
-- place of the range at which the sequence stands, or the end if it stands nowhere.
pub search-Finds :
    (xs : List ℕ) (y z : ℕ) (ys : List ℕ) → Finds (y ∷ z ∷ ys) xs (search xs (y ∷ z ∷ ys))
unfolding search
search-Finds [] y z ys = missing
search-Finds (x ∷ xs) y z ys = loop-Finds (suc (length (x ∷ xs))) (x ∷ xs) y (z ∷ ys) (omega arith)

search_single : (x : ℕ) (xs : List ℕ) (y : ℕ) → search (x ∷ xs) (y ∷ []) ≡ some (x ∷ xs)
unfolding search find
search_single x xs y = rw (eq→== x x refl) refl

IsFirst-length : (ys xs r : List ℕ) → IsFirst ys xs r → length r ≤ length xs
IsFirst-length ys xs r missing = omega arith
IsFirst-length ys xs r (here _ e) = omega arith
IsFirst-length ys xs r (later x rest _ e h) = omega (arith, IsFirst-length ys rest r h)

IsFirst-start :
    (ys xs r : List ℕ)
    → IsFirst ys xs r
    → length xs ≤ length r
    → 0 < length xs
    → prefix ys xs ≡ true
IsFirst-start ys xs r missing p q = absurd (omega arith)
IsFirst-start ys xs r (here _ e) p q = e
IsFirst-start ys xs r (later x rest _ e h) p q = absurd (omega (arith, IsFirst-length ys rest r h))

single_head : (x : ℕ) (xs : List ℕ) (y : ℕ) → prefix (y ∷ []) (x ∷ xs) ≡ true → x ≡ y
single_head x xs y e = ground arith

-- `__search` for a sequence of one element, on a range that is not empty, returns the element's
-- first place exactly if the range starts with the element: it looks for the range's own first
-- element.
pub search_single-Finds :
    (x : ℕ) (xs : List ℕ) (y : ℕ) → Finds (y ∷ []) (x ∷ xs) (search (x ∷ xs) (y ∷ [])) ↔ (x ≡ y)
search_single-Finds x xs y = rw (search_single x xs y) (
  λ h. single_head x xs y (IsFirst-start (y ∷ []) (x ∷ xs) (x ∷ xs) h (omega arith) (omega arith)),
  λ e. here (x ∷ xs) (rw (eq→== x y e) refl),
)
