-- ===== src/StlAlgo/Find.antt =====
-- `__find`, `__find_not` and `__find_n_aux` of stl_algo/stl_algo.h.
use linux_cpp.Prelude.{
  ◌++◌, append_assoc, append-nil, if_elim, not, ==→ne, ℕ, zero, suc, ◌+◌, ◌≤◌, ◌<◌, ◌≡◌, inl, inr,
  refl, sym, ap, ◌∙◌, Option, none, some, List, [], ◌∷◌, length, ◌==◌, if◌then◌else◌, Bool-cases,
  List-cases, ==→eq, eq→==, ne→==, arith,
}
use linux_cpp.StlAlgo.{null, find, find_n_run, find_n_loop, find_n_aux}

abbrev pub count : ℕ → List ℕ → ℕ
count v [] = 0
count v (x ∷ xs) = if x == v then suc (count v xs) else count v xs

pub find-count : (xs : List ℕ) (v : ℕ) → count v (find xs v) ≡ count v xs
unfolding find
find-count [] v = refl
find-count (x ∷ xs) v = ground (arith, find-count xs v)

pub find-length : (xs : List ℕ) (v : ℕ) → length (find xs v) ≤ length xs
unfolding find
find-length [] v = omega arith
find-length (x ∷ xs) v = ground (arith, find-length xs v)

-- the head of what `find` returns
abbrev pub StartsWith : ℕ → List ℕ → Type 0
StartsWith v [] = 0 ≤ 0
StartsWith v (x ∷ xs) = x ≡ v

pub find-StartsWith : (xs : List ℕ) (v : ℕ) → StartsWith v (find xs v)
unfolding find
find-StartsWith [] v = omega arith
find-StartsWith (x ∷ xs) v = elim (Bool-cases (x == v)) [
  | inl e ↦ rw e (==→eq x v e)
  | inr e ↦ rw e (find-StartsWith xs v)
]

-- The inner loop takes `k` elements off that equal `v`, and stops at another one, at the end, or
-- when `n` are taken.
abbrev RunOf : List ℕ → ℕ → ℕ → List ℕ × ℕ → Type 0
RunOf xs n v (p, n') =
    (count v xs + n' ≡ n + count v p) × (length p + n ≡ length xs + n') × (n' ≤ n)

run-RunOf : (xs : List ℕ) (n v : ℕ) → RunOf xs n v (find_n_run xs n v)
unfolding find_n_run
run-RunOf [] n v = ground arith
run-RunOf (x ∷ xs) zero v = ground arith
run-RunOf (x ∷ xs) (suc n) v = ground (arith, run-RunOf xs n v)

run_progress : (x : ℕ) (xs : List ℕ) (n v : ℕ) → x ≡ v → 0 < n → (find_n_run (x ∷ xs) n v).1 < n
unfolding find_n_run
run_progress x xs zero v e p = absurd (omega arith)
run_progress x xs (suc n) v e p = rw (eq→== x v e) (omega (arith, run-RunOf xs n v))

-- The result of `__find_n_aux` when `c` elements of the range equal `v`: the end if there are fewer
-- than `n`, or else a place at which `v` stands.
abbrev pub IsHit : ℕ → ℕ → ℕ → Option (List ℕ) → Type 0
IsHit c n v none = ⊥
IsHit c n v (some []) = c < n
IsHit c n v (some (x ∷ s)) = (n ≤ c) × (x ≡ v)

IsHit-shift :
    (c n c' n' v : ℕ) (r : Option (List ℕ)) → c + n' ≡ n + c' → IsHit c' n' v r → IsHit c n v r
IsHit-shift c n c' n' v none e h = h
IsHit-shift c n c' n' v (some []) e h = omega arith
IsHit-shift c n c' n' v (some (x ∷ s)) e (h, q) = (omega arith, q)

find_n_after : ℕ → ℕ → List ℕ → List ℕ × ℕ → Option (List ℕ)
find_n_after fuel v s (p, n') =
    if n' == 0 then some s else if null p then some [] else find_n_loop fuel p n' v

-- the iterator `s` is one of the range `xs`
abbrev pub IsPlace : List ℕ → List ℕ → Type 0
IsPlace xs s = (front : List ℕ) × (front ++ s ≡ xs)

IsPlace-trans : (xs ys zs : List ℕ) → IsPlace xs ys → IsPlace ys zs → IsPlace xs zs
IsPlace-trans xs ys zs (a, p) (b, q) = (a ++ b, append_assoc a b zs ∙ ap (λ l. a ++ l) q ∙ p)

find-IsPlace : (xs : List ℕ) (v : ℕ) → IsPlace xs (find xs v)
unfolding find
find-IsPlace [] v = ([], refl)
find-IsPlace (x ∷ xs) v =
    let (front, e) = find-IsPlace xs v in
    if_elim (λ s. IsPlace (x ∷ xs) s) (not (x == v)) _ _ (λ _. (x ∷ front, ap (λ l. x ∷ l) e))
      (λ _. ([], refl))

run-IsPlace : (xs : List ℕ) (n v : ℕ) → IsPlace xs (find_n_run xs n v).0
unfolding find_n_run
run-IsPlace [] n v = ([], refl)
run-IsPlace (x ∷ xs) zero v = ([], refl)
run-IsPlace (x ∷ xs) (suc n) v =
    let (front, e) = run-IsPlace xs n v in
    if_elim {A = List ℕ × ℕ} (λ s. IsPlace (x ∷ xs) s.0) (x == v) _ _
      (λ _. (x ∷ front, ap (λ l. x ∷ l) e)) (λ _. ([], refl))

-- the result is an iterator of the range
abbrev pub InRange : List ℕ → Option (List ℕ) → Type 0
InRange xs none = ⊥
InRange xs (some s) = IsPlace xs s

to_end : (xs : List ℕ) → IsPlace xs []
to_end xs = (xs, append-nil xs)

InRange-IsPlace :
    (xs ys : List ℕ) (r : Option (List ℕ)) → IsPlace xs ys → InRange ys r → InRange xs r
InRange-IsPlace xs ys none p h = h
InRange-IsPlace xs ys (some s) p h = IsPlace-trans xs ys s p h

loop_found :
    (fuel : ℕ) (xs : List ℕ) (n v x : ℕ) (s : List ℕ)
    → find xs v ≡ x ∷ s
    → find_n_loop (suc fuel) xs n v ≡ find_n_after fuel v (x ∷ s) (find_n_run (x ∷ s) n v)
unfolding find_n_loop find_n_after
loop_found fuel xs n v x s e = rw (find_n_loop, e) refl

loop_end :
    (fuel : ℕ) (xs : List ℕ) (n v : ℕ) → find xs v ≡ [] → find_n_loop (suc fuel) xs n v ≡ some []
unfolding find_n_loop
loop_end fuel xs n v e = rw (find_n_loop, e) refl

after-IsHit :
    (fuel n v x : ℕ) (s ps : List ℕ) (n' : ℕ)
    → (0 < n' → length ps < fuel → IsHit (count v ps) n' v (find_n_loop fuel ps n' v))
    → x ≡ v
    → length s < fuel
    → RunOf (x ∷ s) n v (ps, n')
    → n' < n
    → IsHit (count v (x ∷ s)) n v (find_n_after fuel v (x ∷ s) (ps, n'))
unfolding find_n_after
after-IsHit fuel n v x s ps zero again e h (a, b, c) p = (omega arith, e)
after-IsHit fuel n v x s [] (suc n') again e h (a, b, c) p =
    rw (ne→== (suc n') 0 (omega arith)) (omega arith)
after-IsHit fuel n v x s (y ∷ ps) (suc n') again e h (a, b, c) p =
    rw (ne→== (suc n') 0 (omega arith)) (
      IsHit-shift (count v (x ∷ s)) n (count v (y ∷ ps)) (suc n') v
        (find_n_loop fuel (y ∷ ps) (suc n') v) a (again (omega arith) (omega arith)))

loop-IsHit :
    (fuel : ℕ) (xs : List ℕ) (n v : ℕ)
    → 0 < n
    → length xs < fuel
    → IsHit (count v xs) n v (find_n_loop fuel xs n v)
loop-IsHit zero xs n v p h = absurd (omega arith)
loop-IsHit (suc fuel) xs n v p h = elim (List-cases (find xs v)) [
  | inl e ↦ rw (loop_end fuel xs n v e) (omega (arith, ap (count v) e, find-count xs v))
  | inr (x, s, e) ↦
      let r = find_n_run (x ∷ s) n v in
      let head : x ≡ v = rw e at (find-StartsWith xs v) in
      let shorter : length s < fuel = omega (arith, ap length e, find-length xs v) in
      let same : count v xs ≡ count v (x ∷ s) = sym (find-count xs v) ∙ ap (count v) e in
      rw (loop_found fuel xs n v x s e, same)
        (after-IsHit fuel n v x s r.0 r.1 (loop-IsHit fuel r.0 r.1 v) head shorter
          (run-RunOf (x ∷ s) n v) (run_progress x s n v head p))
]

-- If the loop has fuel for the range, it returns an iterator of the range.
loop-InRange :
    (fuel : ℕ) (xs : List ℕ) (n v : ℕ)
    → 0 < n
    → length xs < fuel
    → InRange xs (find_n_loop fuel xs n v)
unfolding find_n_after
loop-InRange zero xs n v p h = absurd (omega arith)
loop-InRange (suc fuel) xs n v p h = elim (List-cases (find xs v)) [
  | inl e ↦ rw (loop_end fuel xs n v e) (to_end xs)
  | inr (x, s, e) ↦
      let r = find_n_run (x ∷ s) n v in
      let head : x ≡ v = rw e at (find-StartsWith xs v) in
      let here : IsPlace xs (x ∷ s) = rw e at (find-IsPlace xs v) in
      let facts : RunOf (x ∷ s) n v r = run-RunOf (x ∷ s) n v in
      let less = run_progress x s n v head p in
      let shorter : length r.0 < fuel =
        omega (arith, ap length e, find-length xs v, facts.1, less) in
      rw (loop_found fuel xs n v x s e) (
        if_elim {A = Option (List ℕ)} (InRange xs) (r.1 == 0) (some (x ∷ s)) _ (λ _. here)
          (λ z.
            if_elim {A = Option (List ℕ)} (InRange xs) (null r.0) (some []) _ (λ _. to_end xs)
              (λ _.
                InRange-IsPlace xs r.0 (find_n_loop fuel r.0 r.1 v)
                  (IsPlace-trans xs (x ∷ s) r.0 here (run-IsPlace (x ∷ s) n v))
                  (loop-InRange fuel r.0 r.1 v (omega (arith, ==→ne r.1 0 z)) shorter))))
]

-- `__find_n_aux( first, last, n, val )` for n > 0 returns, without running out of fuel, an iterator of
-- the range: a place at which `val` stands if at least n elements of the whole range equal `val`, and
-- the end if fewer do. The elements counted need not be adjacent, since the code does not put `n` back.
pub find_n_aux-IsHit :
    (xs : List ℕ) (n v : ℕ)
    → 0 < n
    → IsHit (count v xs) n v (find_n_aux xs n v) × InRange xs (find_n_aux xs n v)
unfolding find_n_aux
find_n_aux-IsHit [] n v p = (p, ([], refl))
find_n_aux-IsHit (x ∷ xs) n v p =
    let h = loop-IsHit (suc (length (x ∷ xs))) (x ∷ xs) n v p (omega arith) in
    (h, loop-InRange (suc (length (x ∷ xs))) (x ∷ xs) n v p (omega arith))
