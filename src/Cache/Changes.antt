-- ===== src/Cache/Changes.antt =====
-- cache/cache.h: what `get_obj`, `put_obj`, `__alloc_slab` and `__destroy_slab` do to the account of
-- the slabs and the objects that are out.
use mathlib.Core.Path.{subst}
use linux_cpp.Prelude.{
  ℕ, suc, ◌+◌, ◌-◌, ◌<◌, ◌≡◌, refl, sym, ap, ◌∙◌, ◌==◌, List, ◌∷◌, arith, inl, inr, Bool-cases,
  ==→eq, ◌%◌,
}
use linux_cpp.Cache.{Slab, Sizes, index_to_obj, get_slab, alloc_slab, get_obj, put_obj, addresses}
use linux_cpp.Cache.Bounds.{IsSizes, get_slab-index_to_obj}
use linux_cpp.Cache.Counts.{count, count_head}
use linux_cpp.Cache.Accounts.{
  spare, Accounts, count-In, keep-IsObject, zero-cases, other_count, more, other_address,
}
use linux_cpp.Cache.Slabs.{
  IsSlab, other_goes, other_comes, get_obj-IsSlab, put_obj-IsSlab, alloc_slab-IsSlab, le-inuse,
}

module _ (k : Sizes) (w : IsSizes k) where
  pub get_obj-Accounts :
      (outs : List ℕ) (s : Slab) (rest : List Slab) (n : ℕ)
      → Accounts k outs (s ∷ rest) n
      → s.inuse < k.num
      → Accounts k ((get_obj k s).0 ∷ outs) ((get_obj k s).1 ∷ rest) (n - 1)
  unfolding get_obj addresses spare count
  get_obj-Accounts outs s rest n a h =
      let p = a.each s (inl refl) in
      let q = get_obj-IsSlab k w outs s p h in
      record {
        each = λ t m. elim m [
          | inl e ↦ subst (λ u. IsSlab k ((get_obj k s).0 ∷ outs) u) (sym e) q.1
          | inr m ↦
              other_goes k w outs s t s.free p.aligned q.0 (other_address k w outs s t rest n a m)
                (a.each t (inr m))
        ];
        distinct = a.distinct;
        known = λ o l. elim (Bool-cases (index_to_obj k s.free s == o)) [
          | inl e ↦ ((get_obj k s).1, inl refl, s.free, q.0, sym (==→eq _ o e))
          | inr e ↦
              keep-IsObject k s (get_obj k s).1 rest o refl
                (a.known o (omega (arith, l, other_count k w _ o outs e)))
        ];
        sum = omega (arith, a.sum, h);
      }

  -- an object that is out is one of the slab at its page
  owner :
      (outs : List ℕ) (s : Slab) (rest : List Slab) (n o : ℕ)
      → Accounts k outs (s ∷ rest) n
      → 0 < count o outs
      → get_slab o ≡ s.address
      → (i : ℕ) × (i < k.num) × (o ≡ index_to_obj k i s)
  owner outs s rest n o a c e =
      let (t, m, i, l, z) = a.known o c in
      let page : t.address ≡ s.address =
        sym (get_slab-index_to_obj k w t i l (a.each t m).aligned) ∙ sym (ap get_slab z) ∙ e in
      elim m [
        | inl y ↦ (i, l, z ∙ ap (λ (v : Slab). index_to_obj k i v) y)
        | inr m ↦ absurd (other_address k w outs s t rest n a m page)
      ]

  pub put_obj-Accounts :
      (outs : List ℕ) (s : Slab) (rest : List Slab) (n o : ℕ)
      → Accounts k (o ∷ outs) (s ∷ rest) n
      → get_slab o ≡ s.address
      → Accounts k outs (put_obj k o s ∷ rest) (suc n)
  unfolding put_obj addresses spare
  put_obj-Accounts outs s rest n o a e =
      let (i, l, z) = owner (o ∷ outs) s rest n o a (omega (arith, count_head o outs)) e in
      let p = subst (λ x. IsSlab k (x ∷ outs) s) z (a.each s (inl refl)) in
      let out : 0 < s.inuse =
        omega (arith, le-inuse k w _ s i p l, count_head (index_to_obj k i s) outs) in
      record {
        each = λ t m. elim m [
          | inl y ↦
              subst (λ u. IsSlab k outs u) (ap (λ x. put_obj k x s) (sym z) ∙ sym y)
                (put_obj-IsSlab k w outs s i l p)
          | inr m ↦
              other_comes k w outs s t i p.aligned l (other_address k w _ s t rest n a m)
                (subst (λ x. IsSlab k (x ∷ outs) t) z (a.each t (inr m)))
        ];
        distinct = a.distinct;
        known = λ x h.
            keep-IsObject k s (put_obj k o s) rest x refl
              (a.known x (omega (arith, h, more k w o x outs)));
        sum = omega (arith, a.sum, out, p.used);
      }

  -- A slab with no object out is left out of the account.
  pub destroy-Accounts :
      (outs : List ℕ) (s : Slab) (rest : List Slab) (n : ℕ)
      → Accounts k outs (s ∷ rest) n
      → s.inuse ≡ 0
      → Accounts k outs rest (n - k.num)
  unfolding addresses spare count
  destroy-Accounts outs s rest n a e = record {
    each = λ t m. a.each t (inr m);
    distinct = λ x. omega (arith, a.distinct x);
    known = λ o h.
        let (t, m, i, l, z) = a.known o h in
        elim m [
          | inl y ↦
              let p = a.each s (inl refl) in
              let here : o ≡ index_to_obj k i s = z ∙ ap (λ (v : Slab). index_to_obj k i v) y in
              absurd (omega (arith, h, e, le-inuse k w outs s i p l, ap (λ x. count x outs) here))
          | inr m ↦ (t, m, i, l, z)
        ];
    sum = omega (arith, a.sum, e);
  }

  pub alloc_slab-Accounts :
      (outs : List ℕ) (page : ℕ) (ss : List Slab) (n : ℕ)
      → Accounts k outs ss n
      → page % 1024 ≡ 0
      → count page (addresses ss) ≡ 0
      → Accounts k outs (alloc_slab k page ∷ ss) (n + k.num)
  unfolding alloc_slab addresses spare count
  alloc_slab-Accounts outs page ss n a h c =
      let s = alloc_slab k page in
      let new : (i : ℕ) → i < k.num → count (index_to_obj k i s) outs ≡ 0 = λ i l.
        elim (zero-cases (count (index_to_obj k i s) outs)) [
          | inl z ↦ z
          | inr y ↦
              let (t, m, j, q, z) = a.known (index_to_obj k i s) y in
              let same : t.address ≡ page =
                sym (get_slab-index_to_obj k w t j q (a.each t m).aligned)
                ∙ ap get_slab (sym z)
                ∙ get_slab-index_to_obj k w s i l h in
              absurd (omega (arith, c, ap (λ b. count b (addresses ss)) same, count-In t ss m))
        ] in
      record {
        each = λ t m. elim m [
          | inl y ↦ subst (λ u. IsSlab k outs u) (sym y) (alloc_slab-IsSlab k w outs page h new)
          | inr m ↦ a.each t m
        ];
        distinct = λ x. elim (Bool-cases (page == x)) [
          | inl e ↦ rw e (omega (arith, c, ap (λ b. count b (addresses ss)) (==→eq page x e)))
          | inr e ↦ rw e (omega (arith, a.distinct x))
        ];
        known = λ o q. let (t, m, i, l, z) = a.known o q in (t, inr m, i, l, z);
        sum = omega (arith, a.sum);
      }
