-- ===== src/StlAlgo/Tests.antt =====
-- Runs of stl_algo/stl_algo.h, and its theorems at concrete ranges.
use linux_cpp.Prelude.{
  ℕ, ◌+◌, ◌≡◌, ◌≢◌, refl, true, false, some, List, [], ◌∷◌, length, take, arith,
}
use linux_cpp.StlAlgo.{
  find, find_not, find_n_run, find_n_loop, find_n_aux, match_run, search_loop, search, equal3,
  equal4, remove_loop, no_return, remove, find_adjacent_loop, find_adjacent, unique_loop, unique,
  iter_swap, shuffle_loop, shuffle, for_each,
}
use linux_cpp.StlAlgo.Find.{IsHit, InRange, find_n_aux-IsHit}
use linux_cpp.StlAlgo.Search.{Finds, search-Finds}
use linux_cpp.StlAlgo.Remove.{Removes, remove-Removes}
use linux_cpp.StlAlgo.Unique.{dedup, unique-dedup}

abbrev runs : List ℕ
runs = 1 ∷ 1 ∷ 2 ∷ 2 ∷ 2 ∷ 3 ∷ 1 ∷ []

abbrev ends_twice : List ℕ
ends_twice = 1 ∷ 2 ∷ 3 ∷ 3 ∷ []

find_test : (find runs 2 ≡ 2 ∷ 2 ∷ 2 ∷ 3 ∷ 1 ∷ []) × (find_not runs 1 ≡ 2 ∷ 2 ∷ 2 ∷ 3 ∷ 1 ∷ [])
unfolding find find_not
find_test = (refl, refl)

-- two elements equal 1, but not next to each other
find_n_aux_test : find_n_aux (1 ∷ 2 ∷ 1 ∷ []) 2 1 ≡ some (1 ∷ [])
unfolding find_n_aux find_n_loop find_n_run find
find_n_aux_test = refl

search_test : search runs (2 ∷ 2 ∷ 3 ∷ []) ≡ some (2 ∷ 2 ∷ 3 ∷ 1 ∷ [])
unfolding search search_loop match_run find
search_test = refl

equal_test : (equal3 (1 ∷ []) runs ≡ some true) × (equal4 (1 ∷ []) runs ≡ false)
unfolding equal3 equal4
equal_test = (refl, refl)

remove_test : remove runs 2 ≡ no_return (1 ∷ 1 ∷ 3 ∷ 1 ∷ 2 ∷ 3 ∷ 1 ∷ []) 4
unfolding remove remove_loop find
remove_test = refl

unique_test :
    (unique runs ≡ (1 ∷ 2 ∷ 3 ∷ 1 ∷ 2 ∷ 3 ∷ 1 ∷ [], 4)) × (unique ends_twice ≡ (ends_twice, 4))
unfolding unique unique_loop find_adjacent find_adjacent_loop
unique_test = (refl, refl)

shuffle_test : shuffle (1 ∷ 2 ∷ 3 ∷ []) (λ i. 4) ≡ 2 ∷ 3 ∷ 1 ∷ []
unfolding shuffle shuffle_loop iter_swap
shuffle_test = refl

for_each_test : for_each runs (λ s x. s + x) 0 ≡ 12
unfolding for_each
for_each_test = refl

find_n_aux-IsHit_example : IsHit 3 2 1 (find_n_aux runs 2 1) × InRange runs (find_n_aux runs 2 1)
find_n_aux-IsHit_example = find_n_aux-IsHit runs 2 1 (omega arith)

search-Finds_example : Finds (2 ∷ 2 ∷ 3 ∷ []) runs (search runs (2 ∷ 2 ∷ 3 ∷ []))
search-Finds_example = search-Finds runs 2 2 (3 ∷ [])

remove-Removes_example : Removes runs 2 (remove runs 2)
remove-Removes_example = remove-Removes runs 2

pair_is_early : length (find_adjacent runs) ≢ 2
unfolding find_adjacent find_adjacent_loop
pair_is_early = λ e. omega arith

pair_is_last : length (find_adjacent ends_twice) ≡ 2
unfolding find_adjacent find_adjacent_loop
pair_is_last = refl

unique-dedup_example : take (unique runs).1 (unique runs).0 ≡ dedup runs
unique-dedup_example = unique-dedup runs pair_is_early
