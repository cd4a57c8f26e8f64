-- ===== src/Vector/Tests.antt =====
-- Runs of the vector of mvector/mvector.h, and the theorems at concrete vectors.
use linux_cpp.Prelude.{ℕ, ◌≡◌, ◌↔◌, refl, List, [], ◌∷◌, length, arith}
use linux_cpp.Vector.{
  Vector, ok, throws, breaks, empty_vector, sized, resize, append, remove, insert_at, insert,
}
use linux_cpp.Vector.Contents.{IsValid}
use linux_cpp.Vector.Refine.{TooShort}
use linux_cpp.Vector.History.{insert-TooShort}
use linux_cpp.Vector.Calls.{
  Call, appends, removes, inserts, call, calls, list_call, list_calls, AllLegal, Agrees,
  calls-Agrees,
}

abbrev range : List ℕ
range = 5 ∷ 6 ∷ 7 ∷ []

abbrev history : List (Call ℕ)
history = appends 1 ∷ appends 2 ∷ inserts (7 ∷ 8 ∷ []) 1 ∷ removes 0 ∷ []

abbrev empty_one : Vector ℕ
empty_one = record { block = []; sz = 0; cap = 0; end = 0; storage = 0 }

-- two elements in a block for five, as `mvector( 5 )` and two calls of `append` leave it
abbrev two_of_five : Vector ℕ
two_of_five = record { block = 1 ∷ 2 ∷ 0 ∷ 0 ∷ 0 ∷ []; sz = 2; cap = 5; end = 2; storage = 5 }

two_appended : append 0 2 (append 0 1 (sized 0 5)) ≡ two_of_five
unfolding append sized
two_appended = refl

run_of_history :
    calls 0 history empty_vector
    ≡ ok (1 ∷ [], record { block = 7 ∷ 8 ∷ 2 ∷ 1 ∷ 0 ∷ []; sz = 3; cap = 5; end = 3; storage = 5 })
unfolding calls call append resize remove insert insert_at empty_vector
run_of_history = refl

beyond : remove 0 2 two_of_five ≡ throws
unfolding remove
beyond = refl

empty_one-IsValid : IsValid empty_one
empty_one-IsValid = record { whole = refl; fits = omega arith; ends = refl; stored = refl }

calls-Agrees_example : Agrees 0 (list_calls 0 history []) (calls 0 history empty_one)
unfolding AllLegal list_call
calls-Agrees_example =
    calls-Agrees 0 history empty_one empty_one-IsValid
      (tt, (tt, ((omega arith, omega arith), (tt, tt))))

two_of_five-IsValid : IsValid two_of_five
two_of_five-IsValid = record { whole = refl; fits = omega arith; ends = refl; stored = refl }

insert-TooShort_example :
    (insert 0 range 1 two_of_five ≡ breaks) ↔ TooShort two_of_five (length range)
insert-TooShort_example = insert-TooShort 0 range 1 two_of_five two_of_five-IsValid (omega arith)
