-- ===== src/FwList/Tests.antt =====
-- Runs of list/fwlist.hpp on lists of numbers.
use linux_cpp.Prelude.{ℕ, ◌+◌, ◌≡◌, refl, [], ◌∷◌, some, none, length, arith}
use linux_cpp.FwList.{
  FwList, insert_many, empty, hook_after, insert_after, insert_range, emplace, filled, erase_after,
  erase_after_until_end, overwrite, assign, append_copies, assign_copies, call,
}
use linux_cpp.FwList.Edits.{assign-range}
use linux_cpp.FwList.Sizes.{call-sz}

abbrev three : FwList ℕ
three = record { nodes = 1 ∷ 2 ∷ 3 ∷ []; sz = 3 }

filled_twice : filled {A = ℕ} 2 7 empty ≡ record { nodes = 7 ∷ 7 ∷ []; sz = 2 }
unfolding filled emplace insert_after hook_after
filled_twice = refl

insert_two : insert_range 1 (8 ∷ 9 ∷ []) three ≡ record { nodes = 1 ∷ 8 ∷ 9 ∷ 2 ∷ 3 ∷ []; sz = 7 }
unfolding insert_range insert_after hook_after
insert_two = refl

erase_second : erase_after 1 three ≡ some (record { nodes = 1 ∷ 3 ∷ []; sz = 2 })
unfolding erase_after
erase_second = refl

erase_last_until_end : erase_after_until_end 3 3 three ≡ none
unfolding erase_after_until_end erase_after
erase_last_until_end = refl

assign_short : assign (5 ∷ []) three ≡ some (record { nodes = 5 ∷ []; sz = 1 })
unfolding assign overwrite insert_range erase_after_until_end erase_after
assign_short = refl

assign_four : assign_copies 4 6 three ≡ some (record { nodes = 6 ∷ 6 ∷ 6 ∷ 6 ∷ []; sz = 4 })
unfolding assign_copies overwrite append_copies insert_after hook_after
assign_four = refl

assign-range_example :
    (m : FwList ℕ) × (assign (4 ∷ 5 ∷ 6 ∷ 7 ∷ 8 ∷ []) three ≡ some m)
    × (m.nodes ≡ 4 ∷ 5 ∷ 6 ∷ 7 ∷ 8 ∷ [])
    × ((e : ℕ) → 3 ≡ 3 + e → m.sz ≡ 5 + (e + 2))
assign-range_example = assign-range (4 ∷ 5 ∷ 6 ∷ 7 ∷ 8 ∷ []) three

call-sz_example :
    (m : FwList ℕ) × (call (insert_many 1 (8 ∷ 9 ∷ [])) three ≡ some m)
    × (m.sz ≡ length m.nodes + 2)
call-sz_example = call-sz (insert_many 1 (8 ∷ 9 ∷ [])) three 0 (omega arith) refl
