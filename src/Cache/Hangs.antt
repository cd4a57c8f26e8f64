-- ===== src/Cache/Hangs.antt =====
-- cache/cache.h: types whose objects do not fit a page, and arrays with no slot.
use native.Mathlib.Nat.{div-eq_of_lt, lt-div-mul-add}
use linux_cpp.Prelude.{
  ℕ, zero, suc, ◌+◌, ◌*◌, ◌/◌, ◌≤◌, ◌<◌, ◌≡◌, refl, ◌∙◌, List, [], ◌∷◌, arith, inl, inr, ◌⊎◌,
  le→ltb, none,
}
use linux_cpp.Cache.{
  Slab, Sizes, KmemCache, refill, pick, grow, kmem_alloc, setup, fit, objects, index_to_obj,
  alloc_slab, empty_cache,
}
use linux_cpp.Cache.Bounds.{fit_some, some_quotient}
use linux_cpp.Cache.Growth.{alloc-grow}
use linux_cpp.Cache.Moves.{entry-file_slab}

no_objects : (size n : ℕ) → n ≤ 10 → 10204 < size → objects size n ≡ 0
no_objects size n h l = div-eq_of_lt (omega arith)

fit_none : (rounds n size : ℕ) → n + rounds ≤ 11 → 10204 < size → (fit rounds n size).0 ≡ 0
unfolding fit
fit_none zero n size h l = refl
fit_none (suc rounds) n size h l =
    rw (no_objects size n (omega arith) l) (fit_none rounds (suc n) size (omega arith) l)

past_end :
    (n page size : ℕ) → 988 < size → 0 < n → page + 1024 < page + (32 + n * 4) + 0 * size + size
past_end n page size h p = omega arith

-- The first object of a slab for a type of 989 to 10204 bytes ends behind the one page that
-- `aligned_alloc` gives for the slab.
pub index_to_obj-alloc_slab :
    (size batchcount page : ℕ)
    → 988 < size
    → size ≤ 10204
    → page + 1024
      < index_to_obj (setup size batchcount) 0 (alloc_slab (setup size batchcount) page) + size
unfolding setup alloc_slab
index_to_obj-alloc_slab size batchcount page h l =
    let q : 0 < 10208 / (size + 4) =
      some_quotient 10208 (10208 / (size + 4)) (size + 4) (lt-div-mul-add (omega arith))
        (omega arith) in
    past_end (fit 10 1 size).0 page size h (fit_some 9 1 size q)

entry-pick_from :
    (k : Sizes) (page : ℕ) (full partial free : List Slab) (c : KmemCache)
    → (pick k page (record c { full = full; partial = partial; free_slabs = free })).1.entry
      ≡ c.entry
unfolding pick
entry-pick_from k page full (s ∷ partial) free c = refl
entry-pick_from k page full [] (s ∷ free) c = refl
entry-pick_from k page full [] [] c = refl

entry-pick : (k : Sizes) (page : ℕ) (c : KmemCache) → (pick k page c).1.entry ≡ c.entry
entry-pick k page c = entry-pick_from k page c.full c.partial c.free_slabs c

entry-refill_none :
    (k : Sizes) (rounds : ℕ) (s : Slab) (c : KmemCache)
    → k.num ≡ 0
    → (refill k rounds s c).1.entry ≡ c.entry
unfolding refill
entry-refill_none k zero s c e = refl
entry-refill_none k (suc rounds) s c e = rw (le→ltb s.inuse k.num (omega (arith, e))) refl

module _ (k : Sizes) (none_fits : (k.batchcount ≡ 0) ⊎ (k.num ≡ 0)) where
  entry-refill : (s : Slab) (c : KmemCache) → (refill k k.batchcount s c).1.entry ≡ c.entry
  unfolding refill
  entry-refill s c = elim none_fits [
    | inl e ↦ rw e refl
    | inr e ↦ entry-refill_none k k.batchcount s c e
  ]

  kmem_alloc-none : (pages : List ℕ) (c : KmemCache) → c.entry ≡ [] → kmem_alloc k pages c ≡ none
  unfolding kmem_alloc grow
  kmem_alloc-none [] c e = rw e refl
  kmem_alloc-none (page ∷ pages) c e =
      let picked = pick k page c in
      alloc-grow k page pages c e
      ∙ kmem_alloc-none pages (grow k page c)
          (entry-file_slab k _ _ ∙ entry-refill picked.0 picked.1 ∙ entry-pick k page c ∙ e)

-- With an array of no slots, or a type of more than 10204 bytes, the first `kmem_alloc` never returns.
pub kmem_alloc-hangs :
    (size batchcount : ℕ) (pages : List ℕ)
    → (batchcount ≡ 0) ⊎ (10204 < size)
    → kmem_alloc (setup size batchcount) pages empty_cache ≡ none
unfolding setup
kmem_alloc-hangs size batchcount pages (inl e) =
    kmem_alloc-none (setup size batchcount) (inl e) pages empty_cache refl
kmem_alloc-hangs size batchcount pages (inr l) =
    kmem_alloc-none (setup size batchcount) (inr (fit_none 10 1 size (omega arith) l)) pages
      empty_cache refl
