-- ===== src/Cache/Shrinking.antt =====
-- cache/cache.h: `__shrink` and `kmem_free`.
use mathlib.Core.List.{Permᴰ}
use mathlib.Core.List.Permᴰ
use linux_cpp.Prelude.{
  ℕ, suc, ◌-◌, ◌*◌, ◌<◌, ◌≡◌, ◌≢◌, refl, sym, ap, ◌∙◌, List, [], ◌∷◌, length, ◌==◌, In, arith, inl,
  inr, ==→eq, ==→ne, ltb, ltb→le, if_elim, Option, none, some, Option-cases,
}
use linux_cpp.Cache.{Slab, Sizes, KmemCache, put_obj, get_slab}
use linux_cpp.Cache.Free.{list_del, found, unlink, put_back}
use linux_cpp.Cache.Bounds.{IsSizes}
use linux_cpp.Cache.Accounts.{Accounts-Perm, In-Perm, length-Perm}
use linux_cpp.Cache.Changes.{put_obj-Accounts, destroy-Accounts}
use linux_cpp.Cache.Moves.{slabs_of, IsCache, InHand, In-append, to_partial}

-- what `list_del` gives: the slab at the address and the others, or there is none
abbrev pub Deleted : ℕ → List Slab → Option (Slab × List Slab) → Type 0
Deleted a ss none = (t : Slab) → In t ss → t.address ≢ a
Deleted a ss (some (s, rest)) = (s.address ≡ a) × Permᴰ ss (s ∷ rest)

list_del-Deleted : (a : ℕ) (ss : List Slab) → Deleted a ss (list_del a ss)
unfolding list_del
list_del-Deleted a [] = λ t m. absurd m
list_del-Deleted a (s ∷ ss) =
    if_elim (Deleted a (s ∷ ss)) (s.address == a) _ _ (λ e. (==→eq _ _ e, Permᴰ.refl (s ∷ ss)))
      (λ e. behind (list_del a ss) (==→ne _ _ e) (list_del-Deleted a ss))
  where
    behind :
        (r : Option (Slab × List Slab))
        → s.address ≢ a
        → Deleted a ss r
        → Deleted a (s ∷ ss) (elim r [ some (t, rest) ↦ some (t, s ∷ rest) | none ↦ none ])
    behind none n h =
        λ t m. elim m [ inl e ↦ λ f. n (ap (λ (v : Slab). v.address) (sym e) ∙ f) | inr m ↦ h t m ]
    behind (some (t, rest)) n h = (h.0, Permᴰ.trans (Permᴰ.cons refl h.1) (Permᴰ.swap refl refl))

module _ (k : Sizes) (w : IsSizes k) where
  -- what `unlink` gives where a slab stands at the address
  pub record Unlinked (outs : List ℕ) (a : ℕ) (c : KmemCache) (s : Slab) (d : KmemCache)
      : Type 0 where
    pub hand : InHand k outs s d
    pub at : s.address ≡ a
    pub out : 0 < s.inuse
    pub array : d.entry ≡ c.entry

  from_full :
      (outs : List ℕ) (a : ℕ) (c : KmemCache) (s : Slab) (full : List Slab)
      → IsCache k outs c
      → s.address ≡ a
      → Permᴰ c.full (s ∷ full)
      → Unlinked outs a c s (record c { full = full })
  from_full outs a c s full h e p =
      let back = In-Perm (Permᴰ.symm p) in
      record {
        hand = record {
          accounts = Accounts-Perm k w outs _ _ _ (Permᴰ.append_right c.partial p) h.accounts;
          fulls = λ t m. h.fulls t (back t (inr m));
          partials = h.partials;
          no_free = h.no_free;
          limit = h.limit;
          slabs = h.slabs ∙ length-Perm (Permᴰ.append_right c.partial p);
          objects = h.objects;
        };
        at = e;
        out = omega (arith, h.fulls s (back s (inl refl)), w.some_object);
        array = refl;
      }

  from_partial :
      (outs : List ℕ) (a : ℕ) (c : KmemCache) (s : Slab) (partial : List Slab)
      → IsCache k outs c
      → s.address ≡ a
      → Permᴰ c.partial (s ∷ partial)
      → Unlinked outs a c s (record c { partial = partial })
  from_partial outs a c s partial h e p =
      let back = In-Perm (Permᴰ.symm p) in
      let moved = Permᴰ.trans (Permᴰ.append_left c.full p) (Permᴰ.middle s c.full partial) in
      record {
        hand = record {
          accounts = Accounts-Perm k w outs _ _ _ moved h.accounts;
          fulls = h.fulls;
          partials = λ t m. h.partials t (back t (inr m));
          no_free = h.no_free;
          limit = h.limit;
          slabs = h.slabs ∙ length-Perm moved;
          objects = h.objects;
        };
        at = e;
        out = (h.partials s (back s (inl refl))).0;
        array = refl;
      }

  pub unlink-Unlinked :
      (outs : List ℕ) (a : ℕ) (c : KmemCache) (t : Slab)
      → IsCache k outs c
      → In t (slabs_of c)
      → t.address ≡ a
      → (s : Slab) × (d : KmemCache) × (unlink a c ≡ some (s, d)) × Unlinked outs a c s d
  unfolding unlink found
  unlink-Unlinked outs a c t h m e = elim (Option-cases (list_del a c.full)) [
    | inr ((s, full), f) ↦
        let r : Deleted a c.full (some (s, full)) = rw f at (list_del-Deleted a c.full) in
        (s, record c { full = full }, rw f refl, from_full outs a c s full h r.0 r.1)
    | inl f ↦
        let absent : Deleted a c.full none = rw f at (list_del-Deleted a c.full) in
        elim (Option-cases (list_del a c.partial)) [
          | inr ((s, partial), g) ↦
              let r : Deleted a c.partial (some (s, partial)) =
                rw g at (list_del-Deleted a c.partial) in
              (
                s,
                record c { partial = partial },
                rw (f, g) refl,
                from_partial outs a c s partial h r.0 r.1,
              )
          | inl g ↦
              let gone : Deleted a c.partial none = rw g at (list_del-Deleted a c.partial) in
              absurd (elim (In-append t c.full c.partial m) [
                | inl m ↦ absent t m e
                | inr m ↦ gone t m e
              ])
        ]
  ]

  pub put_back-IsCache :
      (outs : List ℕ) (o : ℕ) (s : Slab) (c : KmemCache)
      → InHand k (o ∷ outs) s c
      → get_slab o ≡ s.address
      → 0 < s.inuse
      → IsCache k outs (put_back k o (s, c)) × ((put_back k o (s, c)).entry ≡ c.entry)
  unfolding put_back put_obj
  put_back-IsCache outs o s c h e p =
      let q = h.accounts.each s (inl refl) in
      let a = put_obj-Accounts k w outs s (slabs_of c) c.nfree o h.accounts e in
      let P : KmemCache → Type 0 = λ d. IsCache k outs d × (d.entry ≡ c.entry) in
      if_elim P (s.inuse - 1 == 0) _ _
        (λ z.
          if_elim P (ltb c.l3_nlimit (suc c.nfree)) _ _
            (λ y. (
              record {
                accounts =
                    destroy-Accounts k w outs (put_obj k o s) (slabs_of c) (suc c.nfree) a
                      (==→eq _ _ z);
                fulls = h.fulls;
                partials = h.partials;
                no_free = h.no_free;
                limit = h.limit;
                slabs = omega (arith, h.slabs);
                objects =
                    let all : c.ntotal ≡ suc (length (slabs_of c)) * k.num =
                      h.objects ∙ ap (λ n. n * k.num) h.slabs in
                    let less : c.nslab - 1 ≡ length (slabs_of c) = omega (arith, h.slabs) in
                    rw less (omega (arith, all));
              },
              refl,
            ))
            (λ y. absurd (omega (arith, h.limit, ltb→le _ _ y))))
        (λ z. (
          to_partial k w outs (put_obj k o s) (record c { nfree = suc c.nfree })
              (record {
                accounts = a;
                fulls = h.fulls;
                partials = h.partials;
                no_free = h.no_free;
                limit = h.limit;
                slabs = h.slabs;
                objects = h.objects;
              })
              (omega (arith, ==→ne _ _ z)) (omega (arith, q.used, p)),
          refl,
        ))
