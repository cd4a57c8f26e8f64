-- ===== src/Cache/Growth.antt =====
-- cache/cache.h: `__grow` and `kmem_alloc`.
use mathlib.Core.Path.{subst}
use linux_cpp.Prelude.{
  Option, none, some, ℕ, zero, suc, ◌+◌, ◌-◌, ◌≤◌, ◌<◌, ◌≡◌, refl, sym, ap, ◌∙◌, List, [], ◌∷◌,
  ◌++◌, length, arith, ◌%◌, min, inl, inr, ltb, ltb→lt, ltb→le, if_elim, some, List-cases,
}
use linux_cpp.Cache.{
  Slab, Sizes, KmemCache, get_obj, refill, pick, file_slab, grow, kmem_alloc, addresses,
}
use linux_cpp.Cache.Bounds.{IsSizes}
use linux_cpp.Cache.Counts.{count, count-append}
use linux_cpp.Cache.Changes.{get_obj-Accounts}
use linux_cpp.Cache.Moves.{
  IsCache-entry, slabs_of, IsCache, InHand, file_slab-IsCache, entry-file_slab, pick-Picked,
}

-- Between calls the objects out of the slabs are those in the array and those of the callers, `user`.
pub record Holds (k : Sizes) (user : List ℕ) (c : KmemCache) : Type 0 where
  pub cache : IsCache k (c.entry ++ user) c
  pub bound : length c.entry ≤ k.batchcount

module _ (k : Sizes) where
  -- the two cases of a round, of which the last one has no page left
  round : (l : List ℕ) (c : KmemCache) (rest : Option (ℕ × KmemCache)) → Option (ℕ × KmemCache)
  round l c rest = elim l [ o ∷ entry ↦ some (o, record c { entry = entry }) | [] ↦ rest ]

  alloc_ready :
      (o : ℕ) (entry pages : List ℕ) (c : KmemCache)
      → c.entry ≡ o ∷ entry
      → kmem_alloc k pages c ≡ some (o, record c { entry = entry })
  unfolding kmem_alloc round
  alloc_ready o entry [] c e = ap (λ l. round l c none) e
  alloc_ready o entry (page ∷ pages) c e =
      ap (λ l. round l c (kmem_alloc k pages (grow k page c))) e

  pub alloc-grow :
      (page : ℕ) (pages : List ℕ) (c : KmemCache)
      → c.entry ≡ []
      → kmem_alloc k (page ∷ pages) c ≡ kmem_alloc k pages (grow k page c)
  unfolding kmem_alloc round
  alloc-grow page pages c e = ap (λ l. round l c (kmem_alloc k pages (grow k page c))) e

module _ (k : Sizes) (w : IsSizes k) (user : List ℕ) where
  -- `rounds` objects went from the slab to the array, fewer where the slab has no more
  record Refilled (rounds : ℕ) (s : Slab) (c : KmemCache) (t : Slab) (d : KmemCache) : Type 0 where
    hand : InHand k (d.entry ++ user) t d
    out : t.inuse ≡ min k.num (s.inuse + rounds)
    moved : length d.entry + s.inuse ≡ length c.entry + t.inuse

  refill-Refilled :
      (rounds : ℕ) (s : Slab) (c : KmemCache)
      → s.inuse ≤ k.num
      → InHand k (c.entry ++ user) s c
      → Refilled rounds s c (refill k rounds s c).0 (refill k rounds s c).1
  unfolding refill get_obj
  refill-Refilled zero s c l h = record { hand = h; out = omega (arith, l); moved = refl }
  refill-Refilled (suc rounds) s c l h =
      if_elim {A = Slab × KmemCache} (λ r. Refilled (suc rounds) s c r.0 r.1) (ltb s.inuse k.num) _
        _
        (λ e.
          let below : s.inuse < k.num = ltb→lt _ _ e in
          let rest =
            refill-Refilled rounds (get_obj k s).1
              (record c { entry = (get_obj k s).0 ∷ c.entry; nfree = c.nfree - 1 }) below
              (record {
                accounts =
                    get_obj-Accounts k w (c.entry ++ user) s (slabs_of c) c.nfree h.accounts below;
                fulls = h.fulls;
                partials = h.partials;
                no_free = h.no_free;
                limit = h.limit;
                slabs = h.slabs;
                objects = h.objects;
              }) in
          record {
            hand = rest.hand;
            out = omega (arith, rest.out);
            moved = omega (arith, rest.moved);
          })
        (λ e. record { hand = h; out = omega (arith, l, ltb→le _ _ e); moved = refl })

  -- `__grow` on an empty array puts at least one object and at most `batchcount` there.
  pub grow-Holds :
      (page : ℕ) (c : KmemCache)
      → 0 < k.batchcount
      → page % 1024 ≡ 0
      → count page (addresses (slabs_of c)) ≡ 0
      → c.entry ≡ []
      → Holds k user c
      → Holds k user (grow k page c) × (0 < length (grow k page c).entry)
  unfolding grow
  grow-Holds page c b a n e h =
      let picked = pick-Picked k w (c.entry ++ user) page c a n h.cache in
      let s = (pick k page c).0 in
      let d = (pick k page c).1 in
      let same : d.entry ≡ c.entry = picked.2 in
      let hand : InHand k (d.entry ++ user) s d = rw picked.2 picked.0 in
      let r = refill-Refilled k.batchcount s d (omega (arith, picked.1)) hand in
      let t = (refill k k.batchcount s d).0 in
      let f = (refill k k.batchcount s d).1 in
      let filed = entry-file_slab k t f in
      let none_yet : length d.entry ≡ 0 = ap length (same ∙ e) in
      let positive : 0 < k.num = w.some_object in
      (
        record {
          cache =
              subst (λ x. IsCache k (x ++ user) (file_slab k (t, f))) (sym filed)
                (file_slab-IsCache k w (f.entry ++ user) t f r.hand
                  (omega (arith, r.out, b, positive)));
          bound = omega (arith, ap length filed, r.moved, r.out, none_yet);
        },
        omega (arith, ap length filed, r.moved, r.out, none_yet, picked.1, b),
      )

  pop_count :
      (o : ℕ) (entry : List ℕ) (x : ℕ)
      → count x ((o ∷ entry) ++ user) ≡ count x (entry ++ (o ∷ user))
  unfolding count
  pop_count o entry x = omega (arith, count-append x entry user, count-append x entry (o ∷ user))

  -- an object goes from the array to the caller
  pub pop-Holds :
      (o : ℕ) (entry : List ℕ) (c : KmemCache)
      → c.entry ≡ o ∷ entry
      → Holds k user c
      → Holds k (o ∷ user) (record c { entry = entry })
  pop-Holds o entry c e h =
      let same : (x : ℕ) → count x (c.entry ++ user) ≡ count x (entry ++ (o ∷ user)) =
        λ x. ap (λ (l : List ℕ). count x (l ++ user)) e ∙ pop_count o entry x in
      record {
        cache = IsCache-entry k w _ _ c entry same h.cache;
        bound = omega (arith, h.bound, ap length e);
      }

  -- `kmem_alloc` returns an object in its second round at the latest.
  pub kmem_alloc-Holds :
      (page : ℕ) (c : KmemCache)
      → 0 < k.batchcount
      → page % 1024 ≡ 0
      → count page (addresses (slabs_of c)) ≡ 0
      → Holds k user c
      → (o : ℕ) × (d : KmemCache) × (kmem_alloc k (page ∷ []) c ≡ some (o, d))
        × Holds k (o ∷ user) d
  kmem_alloc-Holds page c b a n h = elim (List-cases c.entry) [
    | inr (o, entry, e) ↦ (
      o,
      record c { entry = entry },
      alloc_ready k o entry (page ∷ []) c e,
      pop-Holds o entry c e h,
    )
    | inl e ↦
        let grown = grow-Holds page c b a n e h in
        let d = grow k page c in
        elim (List-cases d.entry) [
          | inr (o, entry, f) ↦ (
            o,
            record d { entry = entry },
            alloc-grow k page [] c e ∙ alloc_ready k o entry [] d f,
            pop-Holds o entry d f grown.0,
          )
          | inl f ↦ absurd (omega (arith, grown.1, ap length f))
        ]
  ]
