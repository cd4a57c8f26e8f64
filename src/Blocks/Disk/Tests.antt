-- ===== src/Blocks/Disk/Tests.antt =====
-- Runs of the code of filesystem-block-manager/test.cpp, and the theorems at concrete inputs.
use linux_cpp.Prelude.{
  ℕ, ◌-◌, ◌^◌, ◌≤◌, ◌≡◌, ◌⊎◌, refl, List, [], ◌∷◌, Option, none, some, true, false, if◌then◌else◌,
  ◌==◌, ne→==, set_one, bit, complement, above, below, arith,
}
use linux_cpp.Blocks.{
  Words, set_bit, test_bit, test_and_set_bit, find_next_bit, word_loop, bit_loop, search_word,
  found, undefined,
}
use linux_cpp.Blocks.Find.{Finds, find_next_bit-Finds}
use linux_cpp.Blocks.Disk.{
  State, Result, done, breaks, spins, bind, format, blank_state, super_block, get_all, get_blocks,
  fill, get_indirect, get_block, get_block_from, group_loop, take_bit, find_next_block, sb_bread,
  read_block, write_block, init_group_desc, init_block_bitmap, put_descs, format_group,
}
use linux_cpp.Blocks.Disk.Alloc.{Grants, get_block-Grants}
use linux_cpp.Blocks.Disk.Room.{room}
use linux_cpp.Blocks.Disk.Fill.{Ends, Filled}
use linux_cpp.Blocks.Disk.Mapping.{slot_of, get_blocks-Filled}
use linux_cpp.Blocks.Disk.Format.{first_bits, IsNew}
use linux_cpp.Blocks.Disk.Files.{new-Inv, IsMapping, Returns, get_all-IsMapping}

abbrev values : {A : Type 0} → Result A → Option A
values (done a s) = some a
values breaks = none
values spins = none

abbrev calls : List ℕ
calls = 0 ∷ 3 ∷ 0 ∷ 4 ∷ 5 ∷ 200 ∷ 4 ∷ []

-- blocks 24, 25 and 28 are index blocks
blocks_of_calls :
    values (bind (format 4 0 (blank_state (λ _. false))) (λ _ s. get_all (super_block 0) calls s))
    ≡ some (22 ∷ 23 ∷ 22 ∷ 26 ∷ 27 ∷ 29 ∷ 26 ∷ [])
unfolding get_all get_blocks format blank_state fill get_indirect get_block get_block_from
    group_loop take_bit find_next_block sb_bread read_block write_block init_group_desc
    init_block_bitmap put_descs format_group super_block set_bit test_bit test_and_set_bit
    find_next_bit word_loop bit_loop search_word set_one bit complement above below
blocks_of_calls = refl

-- 22 bits of the first word are in use, and all of the next two
abbrev two_full : Words
two_full i = if i == 0 then 2 ^ 22 - 1 else if i == 3 then 0 else 2 ^ 64 - 1

first_of_word : find_next_bit two_full 256 3 ≡ found 22
unfolding find_next_bit word_loop bit_loop search_word test_bit bit complement above below
first_of_word = refl

-- the only clear bits are in the last word
shift_by_64 : find_next_bit (λ i. if i == 3 then 0 else 2 ^ 64 - 1) 256 3 ≡ undefined
unfolding find_next_bit word_loop bit_loop search_word test_bit bit complement above below
shift_by_64 = refl

-- `index` counts from the first word that is read, so that bit 64 is reported as bit 0
start_word_forgotten : find_next_bit (λ _. 0) 256 64 ≡ found 0
unfolding find_next_bit word_loop bit_loop search_word test_bit bit complement above below
start_word_forgotten = refl

get_all-IsMapping_example :
    Returns
      (IsMapping calls)
      (bind (format 4 0 (blank_state (λ _. false))) (λ _ s. get_all (super_block 0) calls s))
get_all-IsMapping_example =
    get_all-IsMapping (λ _. false) calls (omega arith)
      (
        omega arith,
        (
          omega arith,
          (omega arith, (omega arith, (omega arith, (omega arith, (omega arith, tt))))),
        ),
      )

find_next_bit-Finds_example : Finds two_full 256 3 (find_next_bit two_full 256 3)
find_next_bit-Finds_example = find_next_bit-Finds two_full 256 3 (omega arith) (omega arith)

-- a device with the descriptors and the bitmap of group 0, and a file with no block
abbrev new_device : State
new_device = record {
  cache = λ b. if b == 1 then (λ _. 2) else if b == 2 then first_bits else (λ _. 0);
  uptodate = λ _. true;
  disk = λ _ _. 0;
  i_data = λ _. 0;
}

new_device-IsNew : IsNew new_device
new_device-IsNew = record {
  desc = refl;
  read = refl;
  bitmap = refl;
  zeros = λ c l h.
      rw
        (
          ne→== c 1 (λ e. absurd (omega (arith, l, e))),
          ne→== c 2 (λ e. absurd (omega (arith, l, e))),
        )
        refl;
  no_entry = refl;
}

get_block-Grants_example : Grants new_device (get_block (super_block 0) new_device)
get_block-Grants_example = get_block-Grants new_device (new-Inv new_device new_device-IsNew).ready

get_blocks-Filled_example :
    Ends
      (Filled new_device (slot_of 200) 3)
      ((room new_device ≤ 2) ⊎ (16388 ≤ 200))
      (get_blocks (super_block 0) 200 new_device)
get_blocks-Filled_example = get_blocks-Filled 200 new_device (new-Inv new_device new_device-IsNew)
