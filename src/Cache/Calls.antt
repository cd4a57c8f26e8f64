-- ===== src/Cache/Calls.antt =====
-- cache/cache.h: `__shrink` and `kmem_free`, and what any sequence of calls keeps.

use linux_cpp.Prelude.{
  ◌-◌, ltb→lt, ℕ, suc, ◌<◌, ◌≡◌, refl, sym, ap, ◌∙◌, List, [], ◌∷◌, ◌++◌, length, arith, Bool-cases,
  inl, inr, ltb, lt→ltb, ltb→le, eq→==, some,
}
use linux_cpp.Cache.{Sizes, KmemCache, get_slab}
use linux_cpp.Cache.Free.{put_back, put_all, move_slots, shrink, kmem_free}
use linux_cpp.Cache.Bounds.{IsSizes, get_slab-index_to_obj}
use linux_cpp.Cache.Counts.{count, count-append, count_head}
use linux_cpp.Cache.Moves.{IsCache, IsCache-entry}
use linux_cpp.Cache.Growth.{Holds}
use linux_cpp.Cache.Shrinking.{unlink-Unlinked, put_back-IsCache}

module _ (k : Sizes) (w : IsSizes k) where
  shifted :
      (o : ℕ) (os outs : List ℕ) (x : ℕ) → count x ((o ∷ os) ++ outs) ≡ count x (os ++ (o ∷ outs))
  unfolding count
  shifted o os outs x = omega (arith, count-append x os outs, count-append x os (o ∷ outs))

  -- The objects of the array go back to their slabs.
  put_all-IsCache :
      (os outs : List ℕ) (c : KmemCache)
      → IsCache k (os ++ outs) c
      → (d : KmemCache) × (put_all k os c ≡ some d) × IsCache k outs d × (d.entry ≡ c.entry)
  unfolding put_all
  put_all-IsCache [] outs c h = (c, refl, h, refl)
  put_all-IsCache (o ∷ os) outs c h =
      let h' : IsCache k (os ++ (o ∷ outs)) c =
        IsCache-entry k w _ _ c c.entry (shifted o os outs) h in
      let (d, e, q, r) = put_all-IsCache os (o ∷ outs) c h' in
      let (t, m, i, l, z) = q.accounts.known o (omega (arith, count_head o outs)) in
      let page : t.address ≡ get_slab o =
        sym (ap get_slab z ∙ get_slab-index_to_obj k w t i l (q.accounts.each t m).aligned) in
      let (s, f, g, u) = unlink-Unlinked k w (o ∷ outs) (get_slab o) d t q m page in
      let b = put_back-IsCache k w outs o s f u.hand (sym u.at) u.out in
      (put_back k o (s, f), rw (e, g) refl, b.0, b.1 ∙ u.array ∙ r)

  shrink-Holds :
      (behind : ℕ) (user : List ℕ) (c : KmemCache)
      → Holds k user c
      → length c.entry ≡ k.batchcount
      → (d : KmemCache) × (shrink k behind c ≡ some d) × Holds k user d × (d.entry ≡ [])
  unfolding shrink move_slots
  shrink-Holds behind user c h e =
      let none_over : length c.entry - k.batchcount ≡ 0 = omega (arith, e) in
      let (d, p, q, r) = put_all-IsCache c.entry user c h.cache in
      (
        record d { entry = [] },
        rw (eq→== _ _ e, p, none_over) refl,
        record { cache = IsCache-entry k w user user d [] (λ o. refl) q; bound = omega arith },
        refl,
      )

  push-Holds :
      (o : ℕ) (user : List ℕ) (c : KmemCache)
      → Holds k (o ∷ user) c
      → length c.entry < k.batchcount
      → Holds k user (record c { entry = o ∷ c.entry })
  push-Holds o user c h l = record {
    cache = IsCache-entry k w _ _ c (o ∷ c.entry) (λ x. sym (shifted o c.entry user x)) h.cache;
    bound = omega (arith, l);
  }

  free_room :
      (behind rounds o : ℕ) (c : KmemCache)
      → length c.entry < k.batchcount
      → kmem_free k behind (suc rounds) o c ≡ some (record c { entry = o ∷ c.entry })
  unfolding kmem_free
  free_room behind rounds o c l = rw (lt→ltb _ _ l) refl

  -- `kmem_free` returns in its second round at the latest.
  pub kmem_free-Holds :
      (behind o : ℕ) (user : List ℕ) (c : KmemCache)
      → 0 < k.batchcount
      → Holds k (o ∷ user) c
      → (d : KmemCache) × (kmem_free k behind 2 o c ≡ some d) × Holds k user d
  unfolding kmem_free
  kmem_free-Holds behind o user c b h = elim (Bool-cases (ltb (length c.entry) k.batchcount)) [
    | inl e ↦ (record c { entry = o ∷ c.entry }, rw e refl, push-Holds o user c h (ltb→lt _ _ e))
    | inr e ↦
        let full : length c.entry ≡ k.batchcount = omega (arith, h.bound, ltb→le _ _ e) in
        let (d, p, q, r) = shrink-Holds behind (o ∷ user) c h full in
        let room : length d.entry < k.batchcount = omega (arith, ap length r, b) in
        (
          record d { entry = o ∷ d.entry },
          rw (e, p) (free_room behind 0 o d room),
          push-Holds o user d q room,
        )
  ]
