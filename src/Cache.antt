-- ===== src/Cache.antt =====
-- cache/cache.h with the list of cache/__list.h: a cache of objects of one type, cut out of slabs of
-- one page. An object and a slab stand for their addresses, and each list of `L3` for the slabs that
-- `node` links, from `next` on. `entry` holds the slots in use of `cache_array`, the topmost first, so
-- that `avail` is its length. `aligned_alloc` succeeds, its result is an argument. The counters do not
-- pass 2 ^ 31, and `T` has a size that is not 0. Printing is left out.
mod Free
mod Bounds
mod Counts
mod Slabs
mod Accounts
mod Changes
mod Moves
mod Growth
mod Shrinking
mod Calls
mod Run
mod Safety
mod Hangs
mod Destroy
mod Tests
use linux_cpp.Prelude.{
  ℕ, zero, suc, ◌+◌, ◌-◌, ◌*◌, ◌/◌, ◌%◌, Option, none, some, List, [], ◌∷◌, ◌++◌, length, get_or,
  set, tabulate, ◌==◌, ltb, if◌then◌else◌, Bool, true, false,
}

-- `PAGE_SIZE` and `BUF_END`
abbrev pub page_size : ℕ
page_size = 1024

abbrev pub buf_end : ℕ
buf_end = 4294967295

-- `buf_ctl( s )` stands behind the header; `mem` is `slabsize` behind the address.
pub record Slab : Type 0 where
  pub address : ℕ
  pub inuse : ℕ
  pub free : ℕ
  pub buf_ctl : List ℕ

-- what `__setupcache` computes once from `sizeof( T )`
pub record Sizes : Type 0 where
  pub size : ℕ
  pub batchcount : ℕ
  pub num : ℕ
  pub npages : ℕ
  pub slabsize : ℕ
  pub nlimit : ℕ

-- `L3`, with the field `nlimit` as `l3_nlimit`, and the array of the one processor
pub record KmemCache : Type 0 where
  pub full : List Slab
  pub partial : List Slab
  pub free_slabs : List Slab
  pub nfree : ℕ
  pub ntotal : ℕ
  pub l3_nlimit : ℕ
  pub nslab : ℕ
  pub entry : List ℕ

-- `sizeof( slab )` is 32, and `sizeof( bufctl_t )` is 4.
abbrev pub objects : ℕ → ℕ → ℕ
objects size n = (n * page_size - 32) / (size + 4)

-- The loop of `__setupcache` from `n` on, with `rounds` left: `num` and `npages` after it.
pub fit : ℕ → ℕ → ℕ → ℕ × ℕ
fit zero n size = (0, n)
fit (suc rounds) n size =
    if ltb 0 (objects size n) then (objects size n, n) else fit rounds (suc n) size

pub setup : ℕ → ℕ → Sizes
unfolding fit
setup size batchcount =
    let found = fit 10 1 size in
    record {
      size = size;
      batchcount = batchcount;
      num = found.0;
      npages = found.1;
      slabsize = 32 + found.0 * 4;
      nlimit = found.0 + 3;
    }

abbrev pub empty_cache : KmemCache
empty_cache = record {
  full = [];
  partial = [];
  free_slabs = [];
  nfree = 0;
  ntotal = 0;
  l3_nlimit = 0;
  nslab = 0;
  entry = [];
}

-- `get_slab( o )`
abbrev pub get_slab : ℕ → ℕ
get_slab o = o - o % page_size

-- the bytes of slab `s` from the first object on: `( s )->mem`
abbrev pub mem : Sizes → Slab → ℕ
mem k s = s.address + k.slabsize

-- `&( ( kobj_t< T > * )s->mem )[ i ]`
abbrev pub index_to_obj : Sizes → ℕ → Slab → ℕ
index_to_obj k i s = mem k s + i * k.size

abbrev pub obj_to_index : Sizes → ℕ → Slab → ℕ
obj_to_index k o s = (o - mem k s) / k.size

-- `__alloc_slab`. Where `num` is 0 the last write falls on `mem`, which is set after it.
pub alloc_slab : Sizes → ℕ → Slab
alloc_slab k page = record {
  address = page;
  inuse = 0;
  free = 0;
  buf_ctl = set (tabulate suc k.num) (k.num - 1) buf_end;
}

-- `get_obj`: the object, and the slab without it
pub get_obj : Sizes → Slab → ℕ × Slab
get_obj k s = (
  index_to_obj k s.free s,
  record s { free = get_or s.buf_ctl s.free buf_end; inuse = suc s.inuse },
)

-- `put_obj`, at the slab `s` that holds the object
pub put_obj : Sizes → ℕ → Slab → Slab
put_obj k o s =
    let offset = obj_to_index k o s in
    record s { buf_ctl = set s.buf_ctl offset s.free; free = offset; inuse = s.inuse - 1 }

-- the loop of `__grow`, with `__batchcount` rounds left
pub refill : Sizes → ℕ → Slab → KmemCache → Slab × KmemCache
unfolding get_obj
refill k zero s c = (s, c)
refill k (suc rounds) s c =
    if ltb s.inuse k.num
    then refill k rounds (get_obj k s).1
        (record c { entry = (get_obj k s).0 ∷ c.entry; nfree = c.nfree - 1 })
    else (s, c)

-- the slab that `__grow` takes its objects from, out of its list: the first with some objects out,
-- the first of those with none out, or a new one in `page`
pub pick : Sizes → ℕ → KmemCache → Slab × KmemCache
unfolding alloc_slab
pick k page c = elim c.partial [
  | s ∷ partial ↦ (s, record c { partial = partial })
  | [] ↦ elim c.free_slabs [
    | s ∷ free_slabs ↦ (s, record c { free_slabs = free_slabs })
    | [] ↦ (
      alloc_slab k page,
      record c { nfree = c.nfree + k.num; ntotal = c.ntotal + k.num; nslab = suc c.nslab },
    )
  ]
]

-- the end of `__grow`
pub file_slab : Sizes → Slab × KmemCache → KmemCache
file_slab k (s, c) =
    if s.inuse == k.num
    then record c { full = c.full ++ (s ∷ []) }
    else record c { partial = c.partial ++ (s ∷ []) }

pub grow : Sizes → ℕ → KmemCache → KmemCache
unfolding refill pick file_slab
grow k page c = file_slab k (refill k k.batchcount (pick k page c).0 (pick k page c).1)

-- `kmem_alloc`, with a page for each round that it may take: the object and the cache after it,
-- `none` where more rounds are needed
pub kmem_alloc : Sizes → List ℕ → KmemCache → Option (ℕ × KmemCache)
unfolding grow
kmem_alloc k [] c = elim c.entry [ o ∷ entry ↦ some (o, record c { entry = entry }) | [] ↦ none ]
kmem_alloc k (page ∷ pages) c = elim c.entry [
  | o ∷ entry ↦ some (o, record c { entry = entry })
  | [] ↦ kmem_alloc k pages (grow k page c)
]

-- the pages of some slabs
pub addresses : List Slab → List ℕ
addresses [] = []
addresses (s ∷ ss) = s.address ∷ addresses ss
