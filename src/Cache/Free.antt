-- ===== src/Cache/Free.antt =====
-- cache/cache.h: `__shrink`, `kmem_free` and the destructor.
use linux_cpp.Prelude.{
  ℕ, zero, suc, ◌-◌, Option, none, some, List, [], ◌∷◌, ◌++◌, length, ◌==◌, ltb, if◌then◌else◌,
}
use linux_cpp.Cache.{Slab, Sizes, KmemCache, get_slab, put_obj, addresses}

-- `list_del`, where the slab at the address stands in the list
unfoldable pub list_del : ℕ → List Slab → Option (Slab × List Slab)
list_del a [] = none
list_del a (s ∷ ss) =
    if s.address == a
    then some (s, ss)
    else elim (list_del a ss) [ some (t, rest) ↦ some (t, s ∷ rest) | none ↦ none ]

-- the slab taken out of one list, or what another list gives
unfoldable pub found :
    Option (Slab × List Slab)
    → (List Slab → KmemCache)
    → Option (Slab × KmemCache)
    → Option (Slab × KmemCache)
found none f other = other
found (some (s, rest)) f other = some (s, f rest)

-- `list_del` on the list that the slab stands in; `none` where it stands in none
unfoldable pub unlink : ℕ → KmemCache → Option (Slab × KmemCache)
unfolding list_del found
unlink a c =
    found (list_del a c.full) (λ full. record c { full = full })
      (found (list_del a c.partial) (λ partial. record c { partial = partial })
        (found (list_del a c.free_slabs) (λ free_slabs. record c { free_slabs = free_slabs }) none))

-- one round of the loop of `__shrink`; `put_obj` has raised `nfree`
unfoldable pub put_back : Sizes → ℕ → Slab × KmemCache → KmemCache
unfolding put_obj
put_back k o (s, c) =
    let t = put_obj k o s in
    let nfree = suc c.nfree in
    if t.inuse == 0
    then if ltb c.l3_nlimit nfree
      then record c { nfree = nfree - k.num; ntotal = c.ntotal - k.num; nslab = c.nslab - 1 }
      else record c { nfree = nfree; free_slabs = c.free_slabs ++ (t ∷ []) }
    else record c { nfree = nfree; partial = c.partial ++ (t ∷ []) }

-- the loop of `__shrink` over the objects of the array, the bottom one first
unfoldable pub put_all : Sizes → List ℕ → KmemCache → Option KmemCache
unfolding unlink put_back
put_all k [] c = some c
put_all k (o ∷ os) c = elim (put_all k os c) [
  | some d ↦ elim (unlink (get_slab o) d) [ some e ↦ some (put_back k o e) | none ↦ none ]
  | none ↦ none
]

-- `memmove( entry, source, … )` of the slots in use after `__shrink`, from an address that is the value
-- of a slot and not that of one: the slots, or `none` where the bytes at that address become slots
unfoldable pub move_slots : ℕ → ℕ → Option (List ℕ)
move_slots source zero = some []
move_slots source (suc n) = none

-- `__shrink`. The array has `batchcount` slots, and the source of `memmove` is read from behind the
-- last of them: `behind` is the word that the read gives, if it gives one. Where fewer slots are in
-- use, the loop would take values that are no longer objects: `none`.
unfoldable pub shrink : Sizes → ℕ → KmemCache → Option KmemCache
unfolding put_all move_slots
shrink k behind c =
    if length c.entry == k.batchcount
    then elim (put_all k c.entry c) [
      | some d ↦ elim (move_slots behind (length c.entry - k.batchcount)) [
        | some entry ↦ some (record d { entry = entry })
        | none ↦ none
      ]
      | none ↦ none
    ]
    else none

-- `kmem_free`, in at most `rounds` rounds
unfoldable pub kmem_free : Sizes → ℕ → ℕ → ℕ → KmemCache → Option KmemCache
unfolding shrink
kmem_free k behind zero o c = none
kmem_free k behind (suc rounds) o c =
    let rest : Option KmemCache = elim (shrink k behind c) [
      | some d ↦ kmem_free k behind rounds o d
      | none ↦ none
    ] in
    if ltb (length c.entry) k.batchcount then some (record c { entry = o ∷ c.entry }) else rest

-- `put_obj` at the slab where it stands, in whichever list that is
unfoldable pub put_in : Sizes → ℕ → List Slab → List Slab
unfolding put_obj
put_in k o [] = []
put_in k o (s ∷ ss) = (if s.address == get_slab o then put_obj k o s else s) ∷ put_in k o ss

-- the first loop of `~KmemCache`, over the slots in use, the topmost first
unfoldable pub drain : Sizes → List ℕ → KmemCache → KmemCache
unfolding put_in
drain k [] c = record c { entry = [] }
drain k (o ∷ os) c = drain k os (record c {
  full = put_in k o c.full;
  partial = put_in k o c.partial;
  free_slabs = put_in k o c.free_slabs;
  nfree = suc c.nfree;
})

-- the other loops of `~KmemCache`: the blocks given to `free`, in order, the pages of the slabs and
-- then the array of the one processor, whose address is `array`
unfoldable pub destroy : Sizes → ℕ → KmemCache → List ℕ
unfolding drain addresses
destroy k array c =
    let d = drain k c.entry c in
    addresses d.free_slabs ++ (addresses d.partial ++ (addresses d.full ++ (array ∷ [])))
