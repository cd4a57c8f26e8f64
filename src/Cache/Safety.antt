-- ===== src/Cache/Safety.antt =====
-- cache/cache.h: what holds in each state that calls lead to, for a type of at most 988 bytes, whose
-- objects fit a slab of one page.
use mathlib.Core.Path.{subst}
use linux_cpp.Prelude.{
  ℕ, ◌+◌, ◌*◌, ◌≤◌, ◌<◌, ◌≡◌, ◌≢◌, sym, ap, ◌∙◌, List, [], ◌∷◌, ◌++◌, length, In, arith,
  compare-cases, ap₂, inl, inr, ◌⊎◌, some,
}
use linux_cpp.Cache.{Slab, Sizes, KmemCache, kmem_alloc, index_to_obj, setup}
use linux_cpp.Cache.Free.{kmem_free}
use linux_cpp.Cache.Bounds.{IsSizes, setup-IsSizes, index_to_obj_end, row}
use linux_cpp.Cache.Counts.{count, count-append, count_head, Linked}
use linux_cpp.Cache.Accounts.{IsObject, spare}
use linux_cpp.Cache.Moves.{slabs_of, IsCache, In-append}
use linux_cpp.Cache.Growth.{kmem_alloc-Holds}
use linux_cpp.Cache.Calls.{kmem_free-Holds}
use linux_cpp.Cache.Run.{IsFresh, Reach, Reach-Holds, to_front, all_slabs, all_slabs-eq, fresh_page}

-- where the objects of a slab are: in the list that `free` and `buf_ctl` link, in the array or with
-- the callers
pub record HasPlaces (k : Sizes) (user : List ℕ) (c : KmemCache) (s : Slab) : Type 0 where
  pub chain : List ℕ
  pub linked : Linked s.buf_ctl s.free chain
  pub once :
      (i : ℕ)
      → i < k.num
      → count i chain + count (index_to_obj k i s) c.entry + count (index_to_obj k i s) user ≡ 1
  pub used : s.inuse + length chain ≡ k.num

apart :
    (k : Sizes) (w : IsSizes k) (outs : List ℕ) (c : KmemCache) (o p : ℕ)
    → IsCache k outs c
    → IsObject k (slabs_of c) o
    → IsObject k (slabs_of c) p
    → o ≢ p
    → (o + k.size ≤ p) ⊎ (p + k.size ≤ o)
apart k w outs c o p h (s, m, i, l, e) (t, n, j, q, f) ne =
    let a = (h.accounts.each s m).aligned in
    let b = (h.accounts.each t n).aligned in
    let before : o + k.size ≤ s.address + 1024 = rw e (index_to_obj_end k w s i l a) in
    let behind : p + k.size ≤ t.address + 1024 = rw f (index_to_obj_end k w t j q b) in
    elim (compare-cases s.address t.address) [
      | inl (z, y) ↦ inl (omega (arith, before, f, a, b, y))
      | inr (inr (z, y)) ↦ inr (omega (arith, behind, e, a, b, y))
      | inr (inl (z, y)) ↦ elim (compare-cases i j) [
        | inl (x, u) ↦ inl (omega (arith, e, f, y, row i j k.size u))
        | inr (inr (x, u)) ↦ inr (omega (arith, e, f, y, row j i k.size u))
        | inr (inl (x, u)) ↦ absurd (ne (e ∙ ap₂ (λ n v. v + k.slabsize + n * k.size) u y ∙ sym f))
      ]
    ]

module _ (size batchcount : ℕ) (pos : 0 < size) (fits : size ≤ 988)
    (some_batch : 0 < batchcount) where
  abbrev sizes : Sizes
  sizes = setup size batchcount

  batches : 0 < sizes.batchcount
  unfolding setup
  batches = some_batch

  valid : IsSizes sizes
  valid = setup-IsSizes size batchcount pos fits

  -- For a type of 1 to 988 bytes and an array of at least one slot: each object of each slab of a
  -- reachable state is in one place and only once: in the free list of its slab, in the array, or with
  -- the callers. `inuse` counts those that are not in the free list.
  pub Reach-HasPlaces :
      {user : List ℕ} {c : KmemCache}
      → Reach sizes user c
      → (s : Slab) → In s (all_slabs c)
      → HasPlaces sizes user c s
  Reach-HasPlaces {user} {c} r s m =
      let h = (Reach-Holds sizes valid batches r).cache in
      let p = h.accounts.each s (rw (all_slabs-eq c h.no_free) at m) in
      record {
        chain = p.chain;
        linked = p.linked;
        once = λ i l. omega (arith, p.once i l, count-append (index_to_obj sizes i s) c.entry user);
        used = p.used;
      }

  -- For a type of 1 to 988 bytes and an array of at least one slot: in a reachable state, and for each
  -- fresh page, `kmem_alloc` returns in its second round at the latest. It gives one of the `num` objects
  -- of one of the slabs, whose bytes lie in the page of that slab, behind its header and its `buf_ctl`,
  -- and meet those of no object that a caller has.
  pub kmem_alloc-apart :
      {user : List ℕ} {c : KmemCache} (page : ℕ)
      → Reach sizes user c
      → IsFresh page c
      → (o : ℕ) × (d : KmemCache) × (kmem_alloc sizes (page ∷ []) c ≡ some (o, d))
        × ((s : Slab) × In s (all_slabs d)
            × ((i : ℕ) × (i < sizes.num) × (o ≡ index_to_obj sizes i s))
            × (s.address + (32 + sizes.num * 4) ≤ o)
            × (o + size ≤ s.address + 1024))
        × ((p : ℕ) → 0 < count p user → (o + size ≤ p) ⊎ (p + size ≤ o))
  unfolding setup count
  kmem_alloc-apart {user} {c} page r f =
      let old = Reach-Holds sizes valid batches r in
      let (o, d, e, new) =
        kmem_alloc-Holds sizes valid user page c batches f.aligned
          (fresh_page page c f old.cache.no_free) old in
      let h = new.cache in
      let back = all_slabs-eq d h.no_free in
      let out : 0 < count o (d.entry ++ (o ∷ user)) =
        omega (arith, count-append o d.entry (o ∷ user), count_head o user) in
      let (s, m, i, l, z) = h.accounts.known o out in
      let q = h.accounts.each s m in
      let top = index_to_obj_end sizes valid s i l q.aligned in
      (
        o,
        d,
        e,
        (
          s,
          subst (λ (l : List Slab). In s l) (sym back) m,
          (i, l, z),
          omega (arith, z),
          omega (arith, z, top),
        ),
        λ p g.
            let there : 0 < count p (d.entry ++ (o ∷ user)) =
              omega (arith, count-append p d.entry (o ∷ user), g) in
            let twice : count o user ≡ 0 = omega (
              arith,
              q.once i l,
              ap (λ x. count x (d.entry ++ (o ∷ user))) z,
              count-append o d.entry (o ∷ user),
              count_head o user,
            ) in
            apart sizes valid _ d o p h (s, m, i, l, z) (h.accounts.known p there)
              (λ x. absurd (omega (arith, twice, g, ap (λ y. count y user) x))),
      )

  -- For a type of 1 to 988 bytes and an array of at least one slot: in a reachable state `kmem_free` of
  -- an object that a caller has returns in its second round at the latest, and each object that the
  -- callers still have is one of a slab that is still there. This takes it that the read of the slot
  -- behind the array, which `__shrink` makes, gives some word, and holds for every word.
  pub kmem_free-IsObject :
      (front back : List ℕ) {c : KmemCache} (behind o : ℕ)
      → Reach sizes (front ++ (o ∷ back)) c
      → (d : KmemCache) × (kmem_free sizes behind 2 o c ≡ some d)
        × ((p : ℕ) → 0 < count p (front ++ back) → IsObject sizes (all_slabs d) p)
  kmem_free-IsObject front back {c} behind o r =
      let (d, e, new) =
        kmem_free-Holds sizes valid behind o (front ++ back) c batches
          (to_front sizes valid batches front back o c (Reach-Holds sizes valid batches r)) in
      let h = new.cache in
      (
        d,
        e,
        λ p g.
            subst (λ (l : List Slab). IsObject sizes l p) (sym (all_slabs-eq d h.no_free))
              (h.accounts.known p (omega (arith, count-append p d.entry (front ++ back), g))),
      )

  -- For a type of 1 to 988 bytes and an array of at least one slot: in a reachable state the counters of
  -- `L3` agree with its lists, no slab is without an object out, and the list of free slabs is empty: the
  -- limit on free objects has no effect.
  pub Reach-counters :
      {user : List ℕ} {c : KmemCache}
      → Reach sizes user c
      → (c.nslab ≡ length (all_slabs c))
        × (c.ntotal ≡ c.nslab * sizes.num)
        × (c.nfree ≡ spare sizes (all_slabs c))
        × (c.free_slabs ≡ [])
        × ((s : Slab) → In s (all_slabs c) → 0 < s.inuse)
  Reach-counters {user} {c} r =
      let h = (Reach-Holds sizes valid batches r).cache in
      let e = all_slabs-eq c h.no_free in
      (
        h.slabs ∙ ap length (sym e),
        h.objects,
        h.accounts.sum ∙ ap (λ (l : List Slab). spare sizes l) (sym e),
        h.no_free,
        λ s m. elim (In-append s c.full c.partial (subst (λ (l : List Slab). In s l) e m)) [
          | inl f ↦ omega (arith, h.fulls s f, valid.some_object)
          | inr p ↦ (h.partials s p).0
        ],
      )
