-- ===== src/Blocks/Disk.antt =====
-- The block device of filesystem-block-manager/test.cpp, its super block and the blocks of one inode.
-- A buffer of the device stands for its block: `cache` is what its data points to. Whether `new` leaves
-- `uptodate` set or not in a buffer is not known.
pub mod Alloc
pub mod Slots
pub mod Keep
pub mod Assign
pub mod Puts
pub mod Room
pub mod Fill
pub mod Mapping
pub mod Format
pub mod Files
mod Tests
use linux_cpp.Prelude.{
  ℕ, zero, suc, ◌+◌, ◌-◌, ◌*◌, ◌/◌, ◌%◌, ◌^◌, Bool, true, false, List, [], ◌∷◌, Option, none, some,
  ◌==◌, ltb, leb, if◌then◌else◌,
}
use linux_cpp.Blocks.{
  Words, store, set_bit, test_and_set_bit, Found, found, out, undefined, find_next_bit,
}

pub record State : Type 0 where
  pub cache : ℕ → Words
  pub uptodate : ℕ → Bool
  pub disk : ℕ → Words
  pub i_data : Words

-- `group_desc` is the block of the buffer `group_desc[ 0 ]`
pub record SuperBlock : Type 0 where
  pub nr_groups : ℕ
  pub nr_block : ℕ
  pub nr_start_block : ℕ
  pub group_desc : ℕ

-- The end of a call: its value, an access that is undefined, or a loop that finds the state of its
-- last round again.
pub data Result (A : Type 0) : Type 0 where
  done : A → State → Result A
  breaks : Result A
  spins : Result A

abbrev pub bind : {A B : Type 0} → Result A → (A → State → Result B) → Result B
bind (done a s) k = k a s
bind breaks k = breaks
bind spins k = spins

abbrev pub put_block : (ℕ → Words) → ℕ → Words → ℕ → Words
put_block blocks b ws = λ j. if j == b then ws else blocks j

abbrev pub mark : (ℕ → Bool) → ℕ → ℕ → Bool
mark flags b = λ j. if j == b then true else flags j

pub read_block : ℕ → State → State
read_block b s =
    if s.uptodate b
    then s
    else record s { cache = put_block s.cache b (s.disk b); uptodate = mark s.uptodate b }

pub write_block : ℕ → State → State
write_block b s = record s { disk = put_block s.disk b (s.cache b); uptodate = mark s.uptodate b }

-- `sb_bread` of one of the 1024 blocks
pub sb_bread : ℕ → State → Result ℕ
sb_bread b s = if ltb b 1024 then done b (read_block b s) else breaks

abbrev pub group_start_block : ℕ → ℕ
group_start_block ngp = ngp * 256 + 0

abbrev pub group_first_block : SuperBlock → ℕ → ℕ
group_first_block sb ngp = ngp * 256 + sb.nr_start_block

-- the fields of the descriptors from `ngp` on, for as many as are left
pub put_descs : ℕ → SuperBlock → ℕ → Words → Words
put_descs zero sb ngp ws = ws
put_descs (suc left) sb ngp ws =
    let first = group_first_block sb ngp in
    put_descs left sb (suc ngp) (
      store
        (store (store (store ws (4 * ngp + 1) (first + 0)) (4 * ngp) (first + 2)) (4 * ngp + 3)
          (first + 1))
        (4 * ngp + 2) (first + 0))

pub init_group_desc : SuperBlock → ℕ → State → State
init_group_desc sb b s =
    write_block b
      (record s { cache = put_block s.cache b (put_descs sb.nr_groups sb 0 (s.cache b)) })

pub init_block_bitmap : ℕ → State → State
init_block_bitmap b s = write_block b (record s {
  cache = put_block s.cache b (set_bit 3 (set_bit 2 (set_bit 1 (set_bit 0 (set_bit 0 (λ _. 0))))));
})

-- `group_desc( sb, ngp )->bitmap_block`
abbrev pub bitmap_block : SuperBlock → ℕ → State → ℕ
bitmap_block sb ngp s = s.cache sb.group_desc (4 * ngp)

-- a round of the loop of `main` that makes a super block
pub super_block : ℕ → SuperBlock
super_block ngp = record {
  nr_groups = 4;
  nr_block = group_start_block ngp + 0;
  nr_start_block = 0;
  group_desc = group_start_block ngp + 1;
}

pub format_group : ℕ → State → Result ℕ
format_group ngp s =
    let sb = super_block ngp in
    bind (sb_bread sb.nr_block s) (λ _ s1. bind (sb_bread sb.group_desc s1) (λ b s2.
      let s3 = init_group_desc sb b s2 in
      bind (sb_bread (bitmap_block sb ngp s3) s3) (λ b' s4. done ngp (init_block_bitmap b' s4))))

pub format : ℕ → ℕ → State → Result ℕ
format zero ngp s = done ngp s
format (suc left) ngp s = bind (format_group ngp s) (λ _ s'. format left (suc ngp) s')

-- what `main` has before it formats the groups: pages, blocks and the inode are all zeros
pub blank_state : (ℕ → Bool) → State
blank_state u = record { cache = λ _ _. 0; uptodate = u; disk = λ _ _. 0; i_data = λ _. 0 }

abbrev pub below_size : ℕ → Found → Found
below_size size (found n) = if ltb n size then found n else out
below_size size out = out
below_size size undefined = undefined

pub find_next_block : Words → ℕ → ℕ → Found
find_next_block addr size start_blk = below_size size (find_next_bit addr size start_blk)

-- What `__get_block` does with the bit that it found in the bitmap of block `b`: a bit that is set
-- already sends it back to `repeat`, with the state as it was.
pub take_bit : ℕ → ℕ → State → Found → Result (Option ℕ) → Result (Option ℕ)
take_bit ngp b s (found ino) next =
    let (old, ws) = test_and_set_bit ino (s.cache b) in
    if old
    then spins
    else done (some (256 * ngp + ino)) (record s { cache = put_block s.cache b ws })
take_bit ngp b s out next = next
take_bit ngp b s undefined next = breaks

-- the loop over the groups, for as many as are left
pub group_loop : ℕ → SuperBlock → ℕ → State → Result (Option ℕ)
group_loop zero sb ngp s = done none s
group_loop (suc left) sb ngp s = bind (sb_bread (bitmap_block sb ngp s) s) (λ b s1.
    let next = group_loop left sb (if suc ngp == sb.nr_block then 0 else suc ngp) s1 in
    take_bit ngp b s1 (find_next_block (s1.cache b) 256 22) next)

-- `__get_block`
pub get_block_from : SuperBlock → ℕ → State → Result (Option ℕ)
get_block_from sb ngp s = group_loop sb.nr_groups sb (if leb sb.nr_groups ngp then 0 else ngp) s

pub get_block : SuperBlock → State → Result (Option ℕ)
get_block sb s = get_block_from sb 0 s

-- an `int` that becomes an `unsigned long`
abbrev pub to_ulong : Option ℕ → ℕ
to_ulong none = 2 ^ 64 - 1
to_ulong (some n) = n

-- an entry with the value `v`: where it is 0 it is given a new block, and `put` stores it
pub fill : SuperBlock → ℕ → (ℕ → State → State) → State → Result ℕ
fill sb v put s =
    if v == 0
    then bind (get_block sb s) (λ r s1. done (to_ulong r) (put (to_ulong r) s1))
    else done v s

abbrev pub put_i_data : ℕ → ℕ → State → State
put_i_data i v s = record s { i_data = store s.i_data i v }

abbrev pub put_entry : ℕ → ℕ → ℕ → State → State
put_entry b i v s = record s { cache = put_block s.cache b (store (s.cache b) i v) }

-- the part of `get_blocks` for a block with two indices; an entry beyond the index block is undefined
pub get_indirect : SuperBlock → ℕ → ℕ → State → Result ℕ
get_indirect sb bmd_offset bte_offset s = bind (fill sb (s.i_data 4) (put_i_data 4) s) (λ root s1.
    bind (sb_bread root s1) (λ b s2.
      let next = bind (fill sb (s2.cache b bmd_offset) (put_entry b bmd_offset) s2) (λ bmd s3.
        bind (sb_bread bmd s3)
          (λ b' s4. fill sb (s4.cache b' bte_offset) (put_entry b' bte_offset) s4)) in
      if ltb bmd_offset 128 then next else breaks))

pub get_blocks : SuperBlock → ℕ → State → Result ℕ
get_blocks sb iblock s =
    let indirect = get_indirect sb ((iblock - 4) / 128) ((iblock - 4) % 128) s in
    if ltb iblock 4 then fill sb (s.i_data iblock) (put_i_data iblock) s else indirect

-- `get_blocks` of one logical block after another
pub get_all : SuperBlock → List ℕ → State → Result (List ℕ)
get_all sb [] s = done [] s
get_all sb (i ∷ is) s =
    bind (get_blocks sb i s) (λ b s1. bind (get_all sb is s1) (λ bs s2. done (b ∷ bs) s2))
