-- ===== src/Cache/Destroy.antt =====
-- cache/cache.h: `~KmemCache`.
use linux_cpp.Prelude.{
  if◌then◌else◌, Bool-cases, inl, inr, ==→eq, ℕ, ◌+◌, ◌≤◌, ◌<◌, ◌≡◌, refl, ap, ◌∙◌, List, [], ◌∷◌,
  ◌++◌, arith, if_elim, ◌==◌, ap₂,
}
use linux_cpp.Cache.{Slab, Sizes, KmemCache, put_obj, addresses, get_slab, setup}
use linux_cpp.Cache.Free.{put_in, drain, destroy}
use linux_cpp.Cache.Counts.{count, count-append}
use linux_cpp.Cache.Run.{Reach, Reach-Holds, all_slabs, all_slabs-eq}
use linux_cpp.Cache.Bounds.{setup-IsSizes}

addresses-put_in : (k : Sizes) (o : ℕ) (ss : List Slab) → addresses (put_in k o ss) ≡ addresses ss
unfolding put_in put_obj addresses
addresses-put_in k o [] = refl
addresses-put_in k o (s ∷ ss) =
    ap₂ ◌∷◌
      (if_elim (λ (t : Slab). t.address ≡ s.address) (s.address == get_slab o) _ _ (λ e. refl)
        (λ e. refl))
      (addresses-put_in k o ss)

abbrev pages_of : ℕ → KmemCache → List ℕ
pages_of array c =
    addresses c.free_slabs ++ (addresses c.partial ++ (addresses c.full ++ (array ∷ [])))

pages-drain :
    (k : Sizes) (array : ℕ) (os : List ℕ) (c : KmemCache)
    → pages_of array (drain k os c) ≡ pages_of array c
unfolding drain
pages-drain k array [] c = refl
pages-drain k array (o ∷ os) c =
    pages-drain k array os _
    ∙ ap₂ ◌++◌ (addresses-put_in k o c.free_slabs) (
        ap₂ ◌++◌ (addresses-put_in k o c.partial)
          (ap (λ l. l ++ (array ∷ [])) (addresses-put_in k o c.full)))

pages-destroy : (k : Sizes) (array : ℕ) (c : KmemCache) → destroy k array c ≡ pages_of array c
unfolding destroy
pages-destroy k array c = pages-drain k array c.entry c

count-addresses :
    (a : ℕ) (ss ts : List Slab)
    → count a (addresses (ss ++ ts)) ≡ count a (addresses ss) + count a (addresses ts)
unfolding addresses count
count-addresses a [] ts = omega arith
count-addresses a (s ∷ ss) ts = omega (arith, count-addresses a ss ts)

-- In a reachable state of a cache for a type of 1 to 988 bytes with an array of at least one slot, where
-- the array is no slab's page, the destructor frees the page of each slab, those with objects out too,
-- and the array, frees nothing else and frees no block twice.
pub destroy-once :
    (size batchcount : ℕ)
    → 0 < size
    → size ≤ 988
    → 0 < batchcount
    → (user : List ℕ) (c : KmemCache) → Reach (setup size batchcount) user c
    → (array : ℕ) → count array (addresses (all_slabs c)) ≡ 0
    → (a : ℕ)
    → (count a (destroy (setup size batchcount) array c)
        ≡ count a (addresses (all_slabs c)) + (if array == a then 1 else 0))
      × (count a (destroy (setup size batchcount) array c) ≤ 1)
unfolding setup count
destroy-once size batchcount pos fits some_batch user c r array apart a =
    let k = setup size batchcount in
    let h = (Reach-Holds k (setup-IsSizes size batchcount pos fits) some_batch r).cache in
    let same : count a (destroy k array c)
        ≡ count a (addresses (all_slabs c)) + (if array == a then 1 else 0) =
      omega (
        arith,
        ap (λ l. count a l) (pages-destroy k array c),
        count-append a (addresses c.free_slabs)
            (addresses c.partial ++ (addresses c.full ++ (array ∷ []))),
        count-append a (addresses c.partial) (addresses c.full ++ (array ∷ [])),
        count-append a (addresses c.full) (array ∷ []),
        count-addresses a c.full (c.partial ++ c.free_slabs),
        count-addresses a c.partial c.free_slabs,
      ) in
    let once : count a (addresses (all_slabs c)) ≤ 1 = omega (
      arith,
      h.accounts.distinct a,
      ap (λ (l : List Slab). count a (addresses l)) (all_slabs-eq c h.no_free),
    ) in
    let one : count a (addresses (all_slabs c)) + (if array == a then 1 else 0) ≤ 1 =
      elim (Bool-cases (array == a)) [
        | inl e ↦
            rw e
              (omega (arith, apart, ap (λ b. count b (addresses (all_slabs c))) (==→eq array a e)))
        | inr e ↦ rw e (omega (arith, once))
      ] in
    (same, omega (arith, same, one))
