-- ===== src/Cache/Tests.antt =====
-- Runs of cache/cache.h for a type of 300 bytes, of which a slab holds three, with an array of two.
use linux_cpp.Prelude.{
  ◌==◌, if◌then◌else◌, ◌*◌, ℕ, ◌+◌, ◌≤◌, ◌<◌, ◌≡◌, refl, List, [], ◌∷◌, some, none, inl, arith,
  length, ◌*◌, In, ◌⊎◌,
}
use linux_cpp.Cache.{
  Slab, Sizes, KmemCache, fit, setup, empty_cache, alloc_slab, get_obj, put_obj, refill, pick,
  file_slab, grow, kmem_alloc, addresses, index_to_obj, buf_end,
}
use linux_cpp.Cache.Free.{
  list_del, found, unlink, put_back, put_all, move_slots, shrink, kmem_free, destroy,
}
use linux_cpp.Cache.Accounts.{IsObject, spare}
use linux_cpp.Cache.Counts.{count}
use linux_cpp.Cache.Run.{IsFresh, Reach, all_slabs, made, allocated}
use linux_cpp.Cache.Safety.{
  HasPlaces, Reach-HasPlaces, kmem_alloc-apart, kmem_free-IsObject, Reach-counters,
}
use linux_cpp.Cache.Hangs.{index_to_obj-alloc_slab, kmem_alloc-hangs}
use linux_cpp.Cache.Destroy.{destroy-once}

abbrev sizes : Sizes
sizes = setup 300 2

setup_sizes :
    setup 300 2
    ≡ record { size = 300; batchcount = 2; num = 3; npages = 1; slabsize = 44; nlimit = 6 }
unfolding setup fit
setup_sizes = refl

-- one slab in the page 4096, with its objects 0 and 1 in the array
abbrev slab : ℕ → ℕ → List ℕ → Slab
slab inuse free ctl = record { address = 4096; inuse = inuse; free = free; buf_ctl = ctl }

abbrev one_out : KmemCache
one_out = record {
  full = [];
  partial = slab 2 2 (1 ∷ 2 ∷ buf_end ∷ []) ∷ [];
  free_slabs = [];
  nfree = 1;
  ntotal = 3;
  l3_nlimit = 0;
  nslab = 1;
  entry = 4140 ∷ [];
}

first_alloc : kmem_alloc sizes (4096 ∷ []) empty_cache ≡ some (4440, one_out)
unfolding kmem_alloc grow pick refill file_slab get_obj alloc_slab setup fit
first_alloc = refl

-- both objects of the first batch with callers
abbrev none_left : KmemCache
none_left = record one_out { entry = [] }

second_alloc : kmem_alloc sizes (8192 ∷ []) one_out ≡ some (4140, none_left)
unfolding kmem_alloc
second_alloc = refl

-- The slab is full when the third object is out.
abbrev all_out : KmemCache
all_out = record none_left {
  full = slab 3 buf_end (1 ∷ 2 ∷ buf_end ∷ []) ∷ [];
  partial = [];
  nfree = 0;
}

third_alloc : kmem_alloc sizes (8192 ∷ []) none_left ≡ some (4740, all_out)
unfolding kmem_alloc grow pick refill file_slab get_obj alloc_slab setup fit
third_alloc = refl

abbrev two_back : KmemCache
two_back = record all_out { entry = 4140 ∷ 4440 ∷ [] }

two_frees : kmem_free sizes 0 2 4440 all_out ≡ some (record all_out { entry = 4440 ∷ [] })
unfolding kmem_free setup shrink move_slots put_all
two_frees = refl

third_free : kmem_free sizes 0 2 4140 (record all_out { entry = 4440 ∷ [] }) ≡ some two_back
unfolding kmem_free setup shrink move_slots put_all
third_free = refl

-- The array is full: its objects go back to the slab, which is partial again.
abbrev shrunk : KmemCache
shrunk = record two_back {
  full = [];
  partial = slab 1 0 (1 ∷ buf_end ∷ buf_end ∷ []) ∷ [];
  nfree = 2;
  entry = 4740 ∷ [];
}

last_free : kmem_free sizes 0 2 4740 two_back ≡ some shrunk
unfolding kmem_free setup fit shrink move_slots put_all list_del found unlink put_back put_obj
last_free = refl

-- A slab with one object, all of whose objects come back, is destroyed.
abbrev big : Sizes
big = setup 988 1

big_run :
    kmem_free big 0 2 4132 (record {
      full = record { address = 4096; inuse = 1; free = buf_end; buf_ctl = buf_end ∷ [] } ∷ [];
      partial = [];
      free_slabs = [];
      nfree = 0;
      ntotal = 1;
      l3_nlimit = 0;
      nslab = 1;
      entry = 4132 ∷ [];
    })
    ≡ some (record empty_cache { entry = 4132 ∷ [] })
unfolding kmem_free setup fit shrink move_slots put_all list_del found unlink put_back put_obj
big_run = refl

first-IsFresh : IsFresh 4096 empty_cache
unfolding addresses count
first-IsFresh = record { aligned = refl; unused = refl }

one_out-Reach : Reach sizes (4440 ∷ []) one_out
one_out-Reach = allocated 4096 4440 one_out made first-IsFresh first_alloc

next-IsFresh : IsFresh 8192 one_out
unfolding addresses count
next-IsFresh = record { aligned = refl; unused = refl }

none_left-Reach : Reach sizes (4140 ∷ 4440 ∷ []) none_left
none_left-Reach = allocated 8192 4140 none_left one_out-Reach next-IsFresh second_alloc

third-IsFresh : IsFresh 8192 none_left
unfolding addresses count
third-IsFresh = record { aligned = refl; unused = refl }

all_out-Reach : Reach sizes (4740 ∷ 4140 ∷ 4440 ∷ []) all_out
all_out-Reach = allocated 8192 4740 all_out none_left-Reach third-IsFresh third_alloc

Reach-HasPlaces_example :
    HasPlaces sizes (4740 ∷ 4140 ∷ 4440 ∷ []) all_out (slab 3 buf_end (1 ∷ 2 ∷ buf_end ∷ []))
Reach-HasPlaces_example =
    Reach-HasPlaces 300 2 (omega arith) (omega arith) (omega arith) all_out-Reach _ (inl refl)

kmem_alloc-apart_example :
    (o : ℕ) × (d : KmemCache) × (kmem_alloc sizes (8192 ∷ []) none_left ≡ some (o, d))
    × ((s : Slab) × In s (all_slabs d)
        × ((i : ℕ) × (i < sizes.num) × (o ≡ index_to_obj sizes i s))
        × (s.address + (32 + sizes.num * 4) ≤ o)
        × (o + 300 ≤ s.address + 1024))
    × ((p : ℕ) → 0 < count p (4140 ∷ 4440 ∷ []) → (o + 300 ≤ p) ⊎ (p + 300 ≤ o))
kmem_alloc-apart_example =
    kmem_alloc-apart 300 2 (omega arith) (omega arith) (omega arith) 8192 none_left-Reach
      third-IsFresh

kmem_free-IsObject_example :
    (d : KmemCache) × (kmem_free sizes 0 2 4140 all_out ≡ some d)
    × ((p : ℕ) → 0 < count p (4740 ∷ 4440 ∷ []) → IsObject sizes (all_slabs d) p)
kmem_free-IsObject_example =
    kmem_free-IsObject 300 2 (omega arith) (omega arith) (omega arith) (4740 ∷ []) (4440 ∷ []) 0
      4140 all_out-Reach

Reach-counters_example :
    (all_out.nslab ≡ length (all_slabs all_out))
    × (all_out.ntotal ≡ all_out.nslab * sizes.num)
    × (all_out.nfree ≡ spare sizes (all_slabs all_out))
    × (all_out.free_slabs ≡ [])
    × ((s : Slab) → In s (all_slabs all_out) → 0 < s.inuse)
Reach-counters_example =
    Reach-counters 300 2 (omega arith) (omega arith) (omega arith) all_out-Reach

destroy-once_example :
    (count 4096 (destroy sizes 160 all_out)
      ≡ count 4096 (addresses (all_slabs all_out)) + (if 160 == 4096 then 1 else 0))
    × (count 4096 (destroy sizes 160 all_out) ≤ 1)
unfolding addresses count
destroy-once_example =
    destroy-once 300 2 (omega arith) (omega arith) (omega arith) _ all_out all_out-Reach 160 refl
      4096

index_to_obj-alloc_slab_example :
    4096 + 1024 < index_to_obj (setup 1000 1) 0 (alloc_slab (setup 1000 1) 4096) + 1000
index_to_obj-alloc_slab_example = index_to_obj-alloc_slab 1000 1 4096 (omega arith) (omega arith)

kmem_alloc-hangs_example : kmem_alloc (setup 300 0) (4096 ∷ 8192 ∷ []) empty_cache ≡ none
kmem_alloc-hangs_example = kmem_alloc-hangs 300 0 (4096 ∷ 8192 ∷ []) (inl refl)
