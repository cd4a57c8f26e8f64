-- ===== src/Cache/Slabs.antt =====
-- cache/cache.h: one slab of the cache, while `get_obj` takes an object out of it and `put_obj` puts
-- one back.
use mathlib.Core.Path.{subst}
use linux_cpp.Prelude.{
  ℕ, suc, ◌+◌, ◌-◌, ◌≤◌, ◌<◌, ◌≡◌, ◌≢◌, refl, sym, ap, ◌∙◌, ◌==◌, List, [], ◌∷◌, length, set,
  tabulate, if◌then◌else◌, arith, Bool-cases, inl, inr, ==→eq, ==→ne, ne→==, eq→==, length-set,
  length-tabulate, get_or-set_self, ◌%◌,
}
use linux_cpp.Cache.{
  Slab, Sizes, buf_end, index_to_obj, obj_to_index, get_slab, alloc_slab, get_obj, put_obj,
}
use linux_cpp.Cache.Bounds.{IsSizes, get_slab-index_to_obj, obj_to_index-index_to_obj}
use linux_cpp.Cache.Counts.{
  upto-Linked, count_head, count, total, le-total, Below, total_others, Linked, Linked-Below,
  set-Linked, upto, length-upto, count-upto,
}

-- Of the objects that are out of the slabs, `outs` holds each. Each object of the slab `s` is in the
-- free list or out, once, and `inuse` counts those out.
pub record IsSlab (k : Sizes) (outs : List ℕ) (s : Slab) : Type 0 where
  pub chain : List ℕ
  pub linked : Linked s.buf_ctl s.free chain
  pub wide : length s.buf_ctl ≡ k.num
  pub once : (i : ℕ) → i < k.num → count i chain + count (index_to_obj k i s) outs ≡ 1
  pub used : s.inuse + length chain ≡ k.num
  pub aligned : s.address % 1024 ≡ 0

module _ (k : Sizes) (w : IsSizes k) where
  -- objects of two slabs differ
  pub apart :
      (s t : Slab) (i j : ℕ)
      → s.address % 1024 ≡ 0
      → t.address % 1024 ≡ 0
      → i < k.num
      → j < k.num
      → t.address ≢ s.address
      → index_to_obj k i s ≢ index_to_obj k j t
  apart s t i j a b h l n e = n (
      sym (get_slab-index_to_obj k w t j l b)
      ∙ ap get_slab (sym e)
      ∙ get_slab-index_to_obj k w s i h a)

  -- two objects of one slab differ
  pub index_unique :
      (s : Slab) (i j : ℕ)
      → s.address % 1024 ≡ 0
      → i < k.num
      → j < k.num
      → index_to_obj k i s ≡ index_to_obj k j s
      → i ≡ j
  index_unique s i j a h l e =
      sym (obj_to_index-index_to_obj k w s i h a)
      ∙ ap (λ o. obj_to_index k o s) e
      ∙ obj_to_index-index_to_obj k w s j l a

  -- a slab is not concerned by an object of another one
  pub other_goes :
      (outs : List ℕ) (s t : Slab) (i : ℕ)
      → s.address % 1024 ≡ 0
      → i < k.num
      → t.address ≢ s.address
      → IsSlab k outs t
      → IsSlab k (index_to_obj k i s ∷ outs) t
  unfolding count
  other_goes outs s t i a h n p = record {
    chain = p.chain;
    linked = p.linked;
    wide = p.wide;
    once = λ j l. rw (ne→== _ _ (apart s t i j a p.aligned h l n)) (omega (arith, p.once j l));
    used = p.used;
    aligned = p.aligned;
  }

  pub other_comes :
      (outs : List ℕ) (s t : Slab) (i : ℕ)
      → s.address % 1024 ≡ 0
      → i < k.num
      → t.address ≢ s.address
      → IsSlab k (index_to_obj k i s ∷ outs) t
      → IsSlab k outs t
  unfolding count
  other_comes outs s t i a h n p = record {
    chain = p.chain;
    linked = p.linked;
    wide = p.wide;
    once = λ j l.
        let e : count (index_to_obj k j t) (index_to_obj k i s ∷ outs)
            ≡ count (index_to_obj k j t) outs =
          rw (ne→== _ _ (apart s t i j a p.aligned h l n)) (omega arith) in
        omega (arith, e, p.once j l);
    used = p.used;
    aligned = p.aligned;
  }

  -- `inuse` is the number of the objects that are out.
  pub inuse_total :
      (outs : List ℕ) (s : Slab)
      → IsSlab k outs s
      → total (λ i. count (index_to_obj k i s) outs) k.num ≡ s.inuse
  inuse_total outs s p =
      let b : Below k.num p.chain = rw p.wide at (Linked-Below s.buf_ctl s.free p.chain p.linked) in
      omega
        (arith, p.used, total_others p.chain (λ i. count (index_to_obj k i s) outs) k.num b p.once)

  pub le-inuse :
      (outs : List ℕ) (s : Slab) (i : ℕ)
      → IsSlab k outs s
      → i < k.num
      → count (index_to_obj k i s) outs ≤ s.inuse
  le-inuse outs s i p h =
      omega (arith, inuse_total outs s p, le-total (λ i. count (index_to_obj k i s) outs) k.num i h)

  -- whether the object is that of an index is whether the index is
  same_hit :
      (s : Slab) (i j : ℕ)
      → s.address % 1024 ≡ 0
      → i < k.num
      → j < k.num
      → ◌≡◌ {A = ℕ}
          (if index_to_obj k i s == index_to_obj k j s then 1 else 0)
          (if i == j then 1 else 0)
  same_hit s i j a h l = elim (Bool-cases (i == j)) [
    | inl e ↦ rw (e, eq→== _ _ (ap (λ n. index_to_obj k n s) (==→eq i j e))) refl
    | inr e ↦ rw (e, ne→== _ _ (λ y. ==→ne i j e (index_unique s i j a h l y))) refl
  ]

  get_obj_from :
      (outs : List ℕ) (s : Slab) (chain : List ℕ)
      → Linked s.buf_ctl s.free chain
      → length s.buf_ctl ≡ k.num
      → ((i : ℕ) → i < k.num → count i chain + count (index_to_obj k i s) outs ≡ 1)
      → s.inuse + length chain ≡ k.num
      → s.address % 1024 ≡ 0
      → s.inuse < k.num
      → (s.free < k.num) × IsSlab k ((get_obj k s).0 ∷ outs) (get_obj k s).1
  unfolding get_obj count
  get_obj_from outs s [] l e o u a h = absurd (omega (arith, u, h))
  get_obj_from outs s (x ∷ chain) l e o u a h =
      let below : s.free < k.num = omega (arith, l.0, l.1, e) in
      let hit : (i : ℕ)
          → i < k.num
          → ◌≡◌ {A = ℕ} (if index_to_obj k s.free s == index_to_obj k i s then 1 else 0)
              (if x == i then 1 else 0) =
        λ i q. same_hit s s.free i a below q ∙ ap (λ f. if f == i then 1 else 0) l.0 in
      (
        below,
        record {
          chain = chain;
          linked = rw l.0 (l.2);
          wide = e;
          once = λ i q. omega (arith, hit i q, o i q);
          used = omega (arith, u);
          aligned = a;
        },
      )

  pub get_obj-IsSlab :
      (outs : List ℕ) (s : Slab)
      → IsSlab k outs s
      → s.inuse < k.num
      → (s.free < k.num) × IsSlab k ((get_obj k s).0 ∷ outs) (get_obj k s).1
  get_obj-IsSlab outs s p h = get_obj_from outs s p.chain p.linked p.wide p.once p.used p.aligned h

  pub put_obj-IsSlab :
      (outs : List ℕ) (s : Slab) (i : ℕ)
      → i < k.num
      → IsSlab k (index_to_obj k i s ∷ outs) s
      → IsSlab k outs (put_obj k (index_to_obj k i s) s)
  unfolding put_obj count
  put_obj-IsSlab outs s i h p =
      let out : 0 < s.inuse =
        omega (arith, le-inuse _ s i p h, count_head (index_to_obj k i s) outs) in
      let absent : count i p.chain ≡ 0 =
        omega (arith, p.once i h, count_head (index_to_obj k i s) outs) in
      rw (obj_to_index-index_to_obj k w s i h p.aligned) record {
        chain = i ∷ p.chain;
        linked = (
          refl,
          omega (arith, length-set s.buf_ctl i s.free, p.wide, h),
          rw (get_or-set_self s.buf_ctl i s.free buf_end (omega (arith, p.wide, h)))
              (set-Linked s.buf_ctl s.free i s.free p.chain absent p.linked),
        );
        wide = length-set s.buf_ctl i s.free ∙ p.wide;
        once = λ j l. omega (arith, same_hit s i j p.aligned h l, p.once j l);
        used = omega (arith, p.used, out);
        aligned = p.aligned;
      }

  pub alloc_slab-IsSlab :
      (outs : List ℕ) (page : ℕ)
      → page % 1024 ≡ 0
      → ((i : ℕ) → i < k.num → count (index_to_obj k i (alloc_slab k page)) outs ≡ 0)
      → IsSlab k outs (alloc_slab k page)
  unfolding alloc_slab
  alloc_slab-IsSlab outs page a n = record {
    chain = upto 0 k.num;
    linked =
        let e : k.num ≡ suc (k.num - 1) = omega (arith, w.some_object) in
        subst (λ m. Linked (set (tabulate suc k.num) (k.num - 1) buf_end) 0 (upto 0 m)) (sym e)
          (upto-Linked k.num 0 (k.num - 1) (omega (arith, w.some_object)));
    wide = length-set (tabulate suc k.num) (k.num - 1) buf_end ∙ length-tabulate suc k.num;
    once = λ j l. omega (arith, n j l, count-upto j 0 k.num (omega arith) (omega arith));
    used = omega (arith, length-upto 0 k.num);
    aligned = a;
  }
