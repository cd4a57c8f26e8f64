-- ===== src/Blocks.antt =====
-- filesystem-block-manager/test.cpp: the pages, the bitmaps of blocks, and the blocks of a file. A
-- buffer's content is a function from the number of a word to the word; a word has 64 bits. A call
-- holds the mutex of a bitmap from its start to its end, so that the mutex is left out. The block
-- device has as many pages as it needs.
pub mod Bits
pub mod Pages
pub mod Scan
pub mod Find
pub mod Disk
use linux_cpp.Prelude.{
  ℕ, zero, suc, ◌+◌, ◌-◌, ◌*◌, ◌/◌, ◌%◌, ◌^◌, Bool, true, false, not, ◌&&◌, ◌||◌, List, [], ◌∷◌,
  get_or, set, length, Option, none, some, ◌==◌, ltb, leb, if◌then◌else◌, bit, set_one, set_zero,
  complement, above, below,
}

abbrev pub Words : Type 0
Words = ℕ → ℕ

abbrev pub store : Words → ℕ → ℕ → Words
store addr i v = λ j. if j == i then v else addr j

pub set_bit : ℕ → Words → Words
set_bit nr addr = store addr (nr / 64) (set_one (addr (nr / 64)) (nr % 64))

pub clear_bit : ℕ → Words → Words
clear_bit nr addr = store addr (nr / 64) (set_zero (addr (nr / 64)) (nr % 64))

pub test_bit : ℕ → Words → Bool
test_bit nr addr = bit (addr (nr / 64)) (nr % 64)

-- the old value of the bit, and the words afterwards
pub test_and_set_bit : ℕ → Words → Bool × Words
test_and_set_bit nr addr =
    (bit (addr (nr / 64)) (nr % 64), store addr (nr / 64) (set_one (addr (nr / 64)) (nr % 64)))

abbrev pub next_page : Option ℕ → Option ℕ
next_page none = none
next_page (some i) = some (suc i)

-- `get_one_page`: the number of the page, and the page bitmap afterwards
pub get_one_page : List ℕ → Option ℕ × List ℕ
get_one_page [] = (none, [])
get_one_page (b ∷ bs) =
    let (page, bs') = get_one_page bs in
    if b == 0 then (some 0, 1 ∷ bs) else (next_page page, b ∷ bs')

pub free_one_page : ℕ → List ℕ → List ℕ
free_one_page index page_bitmap = set page_bitmap index 0

-- The first loop of `find_next_bit`, for as many words as are left: `value` where it is not 0, and the
-- index. `pos` is the word that is read.
pub word_loop : ℕ → Words → ℕ → ℕ → ℕ → Option (ℕ × ℕ)
word_loop zero addr pos index start_offset = none
word_loop (suc left) addr pos index start_offset =
    let value = above start_offset (complement 64 (addr pos)) in
    let rest = word_loop left addr (suc pos) (suc index) 0 in
    if value == 0 then rest else some (index, value)

-- the second loop, from `i` on, for as many bits as are left
pub bit_loop : ℕ → ℕ → ℕ → Option ℕ
bit_loop zero i result = none
bit_loop (suc left) i result =
    let rest = bit_loop left (suc i) result in
    if not (test_bit i (λ _. result)) then some i else rest

-- What `find_next_bit` returns: a bit, `size`, or a shift of a word by 64.
pub data Found : Type 0 where
  found : ℕ → Found
  out : Found
  undefined : Found

abbrev pub found_at : ℕ → Option ℕ → Found
found_at index none = out
found_at index (some i) = found (i + index * 64)

-- the part of `find_next_bit` from `search_len` on
pub search_word : ℕ → ℕ → ℕ → ℕ → Found
search_word last_offset last_index index value =
    if index == last_index
    then if suc last_offset == 64
      then undefined
      else found_at index
          (bit_loop (suc last_offset) 0 (complement 64 (below (suc last_offset) value)))
    else found_at index (bit_loop 64 0 (complement 64 value))

abbrev pub search_from : ℕ → ℕ → Option (ℕ × ℕ) → Found
search_from last_offset last_index none = out
search_from last_offset last_index (some (index, value)) =
    search_word last_offset last_index index value

pub find_next_bit : Words → ℕ → ℕ → Found
find_next_bit addr size start_bit =
    search_from ((size - 1) % 64) ((size - 1) / 64)
      (word_loop (suc ((size - 1) / 64)) addr (start_bit / 64) 0 (start_bit % 64))
