-- ===== src/StlAlgo.antt =====
-- stl_algo/stl_algo.h: searching and rearranging a range of numbers. A function that only reads takes
-- an iterator as the list from it to the end of its range, so that `[]` is the end; a function that
-- writes takes the whole range and offsets into it. The loops that search again take fuel.
pub mod Find
pub mod Search
pub mod Compare
pub mod Remove
pub mod Unique
pub mod Shuffle
mod Tests
use linux_cpp.Prelude.{
  ℕ, zero, suc, ◌+◌, ◌-◌, ◌%◌, Bool, true, false, ◌&&◌, not, Option, none, some, List, [], ◌∷◌,
  ◌==◌, if◌then◌else◌, length, get_or, set,
}

abbrev pub null : List ℕ → Bool
null [] = true
null (x ∷ xs) = false

pub find : List ℕ → ℕ → List ℕ
find [] v = []
find (x ∷ xs) v = if not (x == v) then find xs v else x ∷ xs

pub find_not : List ℕ → ℕ → List ℕ
find_not [] v = []
find_not (x ∷ xs) v = if x == v then find_not xs v else x ∷ xs

-- the inner loop of `__find_n_aux`
pub find_n_run : List ℕ → ℕ → ℕ → List ℕ × ℕ
find_n_run [] n v = ([], n)
find_n_run (x ∷ xs) zero v = (x ∷ xs, zero)
find_n_run (x ∷ xs) (suc n) v = if x == v then find_n_run xs n v else (x ∷ xs, suc n)

-- the outer loop, and what follows the inner one
pub find_n_loop : ℕ → List ℕ → ℕ → ℕ → Option (List ℕ)
find_n_loop zero xs n v = none
find_n_loop (suc fuel) xs n v = elim (find xs v) [
  | [] ↦ some []
  | x ∷ s ↦
      let r = find_n_run (x ∷ s) n v in
      let again = find_n_loop fuel r.0 r.1 v in
      if r.1 == 0 then some (x ∷ s) else if null r.0 then some [] else again
]

pub find_n_aux : List ℕ → ℕ → ℕ → Option (List ℕ)
find_n_aux [] n v = some []
find_n_aux (x ∷ xs) n v = find_n_loop (suc (length (x ∷ xs))) (x ∷ xs) n v

-- the inner loop of `__search`: where `current` and `p` stop
pub match_run : List ℕ → List ℕ → List ℕ × List ℕ
match_run [] ps = ([], ps)
match_run (c ∷ cs) [] = (c ∷ cs, [])
match_run (c ∷ cs) (p ∷ ps) = if c == p then match_run cs ps else (c ∷ cs, p ∷ ps)

pub search_loop : ℕ → List ℕ → ℕ → List ℕ → Option (List ℕ)
search_loop zero xs y ys = none
search_loop (suc fuel) xs y ys = elim (find xs y) [
  | [] ↦ some []
  | x ∷ s ↦
      let r = match_run (x ∷ s) (y ∷ ys) in
      let again = search_loop fuel s y ys in
      if null r.1 then some (x ∷ s) else if null r.0 then some [] else again
]

pub search : List ℕ → List ℕ → Option (List ℕ)
search [] ys = some []
search (x ∷ xs) [] = some []
search (x ∷ xs) (y ∷ []) = some (find (x ∷ xs) x)
search (x ∷ xs) (y ∷ z ∷ ys) = search_loop (suc (length (x ∷ xs))) (x ∷ xs) y (z ∷ ys)

-- `equal` with three iterators; reading past the second range is `none`.
pub equal3 : List ℕ → List ℕ → Option Bool
equal3 [] ys = some true
equal3 (x ∷ xs) [] = none
equal3 (x ∷ xs) (y ∷ ys) = if x == y then equal3 xs ys else some false

pub equal4 : List ℕ → List ℕ → Bool
equal4 [] ys = null ys
equal4 (x ∷ xs) [] = false
equal4 (x ∷ xs) (y ∷ ys) = if x == y then equal4 xs ys else false

-- the loop of `__remove`: `left` more elements from `p` on, the next free place at `first1`
pub remove_loop : ℕ → List ℕ → ℕ → ℕ → ℕ → List ℕ × ℕ
remove_loop zero m v first1 p = (m, first1)
remove_loop (suc left) m v first1 p =
    if not (get_or m p 0 == v)
    then remove_loop left (set m first1 (get_or m p 0)) v (suc first1) (suc p)
    else remove_loop left m v first1 (suc p)

-- How `__remove` ends: it returns a place, or control reaches the end of the function with no return,
-- which is undefined. In both cases with the range, and in the second with the place that `__first1` has
pub data Removal : Type 0 where
  returned : List ℕ → ℕ → Removal
  no_return : List ℕ → ℕ → Removal

pub remove : List ℕ → ℕ → Removal
unfolding find remove_loop
remove m v =
    let at = length m - length (find m v) in
    if at == length m
    then returned m (length m)
    else let r = remove_loop (length m - suc at) m v at (suc at) in no_return r.0 r.1

-- the loop of `find_adjacent`, with `*__first1` and the list from `p` on
pub find_adjacent_loop : ℕ → List ℕ → List ℕ
find_adjacent_loop x [] = []
find_adjacent_loop x (y ∷ ys) = if y == x then x ∷ y ∷ ys else find_adjacent_loop y ys

pub find_adjacent : List ℕ → List ℕ
find_adjacent [] = []
find_adjacent (x ∷ []) = []
find_adjacent (x ∷ y ∷ ys) = find_adjacent_loop x (y ∷ ys)

-- the loop of `__unique`: `left` more elements from `p` on, the last one kept at `first1`
pub unique_loop : ℕ → List ℕ → ℕ → ℕ → List ℕ × ℕ
unique_loop zero m first1 p = (m, suc first1)
unique_loop (suc left) m first1 p =
    if not (get_or m p 0 == get_or m first1 0)
    then unique_loop left (set m (suc first1) (get_or m p 0)) (suc first1) (suc p)
    else unique_loop left m first1 (suc p)

pub unique : List ℕ → List ℕ × ℕ
unique m =
    let at = length m - length (find_adjacent m) in
    if at == length m
    then (m, length m)
    else if at + 2 == length m
    then (m, length m)
    else unique_loop (length m - (at + 2)) m at (at + 2)

pub iter_swap : List ℕ → ℕ → ℕ → List ℕ
iter_swap m i j = set (set m i (get_or m j 0)) j (get_or m i 0)

-- the loop of `__shuffle`: `left` more elements from `i` on, and the numbers that `rand` returns
pub shuffle_loop : ℕ → List ℕ → (ℕ → ℕ) → ℕ → List ℕ
shuffle_loop zero m rand i = m
shuffle_loop (suc left) m rand i =
    let j = rand i % (i + 1) in
    shuffle_loop left (if not (i == j) then iter_swap m j i else m) rand (suc i)

pub shuffle : List ℕ → (ℕ → ℕ) → List ℕ
shuffle m rand = shuffle_loop (length m - 1) m rand 1

pub for_each : List ℕ → {S : Type 0} → (S → ℕ → S) → S → S
for_each [] f s = s
for_each (x ∷ xs) f s = for_each xs f (f s x)
