-- ===== src/Cache/Moves.antt =====
-- cache/cache.h: the lists of `L3` between the calls, and with one slab taken out of its list.
use mathlib.Core.List.{Permᴰ}
use mathlib.Core.List.Permᴰ
use mathlib.Core.Path.{subst}
use linux_cpp.Prelude.{
  ℕ, suc, ◌*◌, ◌<◌, ◌≡◌, refl, sym, ap, ◌==◌, List, [], ◌∷◌, ◌++◌, length, In, arith, inl, inr, ◌⊎◌,
  ◌%◌, ==→eq, ==→ne, length-append, if_elim, append_assoc, append-nil,
}
use linux_cpp.Cache.{Slab, Sizes, KmemCache, alloc_slab, pick, file_slab, addresses}
use linux_cpp.Cache.Bounds.{IsSizes}
use linux_cpp.Cache.Counts.{count}
use linux_cpp.Cache.Accounts.{Accounts, Accounts-Perm, Accounts-count}
use linux_cpp.Cache.Changes.{alloc_slab-Accounts}

-- `c.full ++ c.partial` are the slabs of a cache whose list of free slabs is empty.
abbrev pub slabs_of : KmemCache → List Slab
slabs_of c = c.full ++ c.partial

-- Each list holds the slabs that its name says, and the counters of `L3` count them.
pub record IsCache (k : Sizes) (outs : List ℕ) (c : KmemCache) : Type 0 where
  pub accounts : Accounts k outs (slabs_of c) c.nfree
  pub fulls : (s : Slab) → In s c.full → s.inuse ≡ k.num
  pub partials : (s : Slab) → In s c.partial → (0 < s.inuse) × (s.inuse < k.num)
  pub no_free : c.free_slabs ≡ []
  pub limit : c.l3_nlimit ≡ 0
  pub slabs : c.nslab ≡ length (slabs_of c)
  pub objects : c.ntotal ≡ c.nslab * k.num

-- the same while the slab `s` is in no list
pub record InHand (k : Sizes) (outs : List ℕ) (s : Slab) (c : KmemCache) : Type 0 where
  pub accounts : Accounts k outs (s ∷ slabs_of c) c.nfree
  pub fulls : (s : Slab) → In s c.full → s.inuse ≡ k.num
  pub partials : (s : Slab) → In s c.partial → (0 < s.inuse) × (s.inuse < k.num)
  pub no_free : c.free_slabs ≡ []
  pub limit : c.l3_nlimit ≡ 0
  pub slabs : c.nslab ≡ suc (length (slabs_of c))
  pub objects : c.ntotal ≡ c.nslab * k.num

pub In-append : {A : Type 0} → (a : A) (xs ys : List A) → In a (xs ++ ys) → In a xs ⊎ In a ys
In-append a [] ys h = inr h
In-append a (x ∷ xs) ys (inl e) = inl (inl e)
In-append a (x ∷ xs) ys (inr h) = elim (In-append a xs ys h) [ inl m ↦ inl (inr m) | inr m ↦ inr m ]

pub entry-file_slab : (k : Sizes) (s : Slab) (c : KmemCache) → (file_slab k (s, c)).entry ≡ c.entry
unfolding file_slab
entry-file_slab k s c =
    if_elim (λ (d : KmemCache). d.entry ≡ c.entry) (s.inuse == k.num) _ _ (λ e. refl) (λ e. refl)

-- what holds of the members of a list and of `s` holds with `s` behind them
with_last :
    (P : Slab → Type 0) (ss : List Slab) (s : Slab)
    → ((t : Slab) → In t ss → P t)
    → P s
    → (t : Slab) → In t (ss ++ (s ∷ []))
    → P t
with_last P ss s h p t m = elim (In-append t ss (s ∷ []) m) [
  | inl m ↦ h t m
  | inr (inl e) ↦ subst P (sym e) p
  | inr (inr f) ↦ absurd f
]

module _ (k : Sizes) (w : IsSizes k) (outs : List ℕ) where
  -- a slab goes to the end of its list
  pub to_full :
      (s : Slab) (c : KmemCache)
      → InHand k outs s c
      → s.inuse ≡ k.num
      → IsCache k outs (record c { full = c.full ++ (s ∷ []) })
  to_full s c h e = record {
    accounts =
        Accounts-Perm k w outs _ _ _
          (subst (λ (l : List Slab). Permᴰ (s ∷ (c.full ++ c.partial)) l)
            (sym (append_assoc c.full (s ∷ []) c.partial))
            (Permᴰ.symm (Permᴰ.middle s c.full c.partial)))
          h.accounts;
    fulls = with_last (λ t. t.inuse ≡ k.num) c.full s h.fulls e;
    partials = h.partials;
    no_free = h.no_free;
    limit = h.limit;
    slabs = omega (
      arith,
      h.slabs,
      length-append (c.full ++ (s ∷ [])) c.partial,
      length-append c.full (s ∷ []),
      length-append c.full c.partial,
    );
    objects = h.objects;
  }

  pub to_partial :
      (s : Slab) (c : KmemCache)
      → InHand k outs s c
      → 0 < s.inuse
      → s.inuse < k.num
      → IsCache k outs (record c { partial = c.partial ++ (s ∷ []) })
  to_partial s c h p q = record {
    accounts =
        Accounts-Perm k w outs _ _ _
          (subst (λ (l : List Slab). Permᴰ (s ∷ (c.full ++ c.partial)) l)
            (append_assoc c.full c.partial (s ∷ []))
            (Permᴰ.symm (
              subst (λ (l : List Slab). Permᴰ ((c.full ++ c.partial) ++ (s ∷ [])) (s ∷ l))
                (append-nil (c.full ++ c.partial)) (Permᴰ.middle s (c.full ++ c.partial) []))))
          h.accounts;
    fulls = h.fulls;
    partials = with_last (λ t. (0 < t.inuse) × (t.inuse < k.num)) c.partial s h.partials (p, q);
    no_free = h.no_free;
    limit = h.limit;
    slabs = omega (
      arith,
      h.slabs,
      length-append c.full (c.partial ++ (s ∷ [])),
      length-append c.partial (s ∷ []),
      length-append c.full c.partial,
    );
    objects = h.objects;
  }

  pub file_slab-IsCache :
      (s : Slab) (c : KmemCache)
      → InHand k outs s c
      → 0 < s.inuse
      → IsCache k outs (file_slab k (s, c))
  unfolding file_slab
  file_slab-IsCache s c h p =
      let q = h.accounts.each s (inl refl) in
      if_elim (IsCache k outs) (s.inuse == k.num) _ _ (λ e. to_full s c h (==→eq _ _ e))
        (λ e. to_partial s c h p (omega (arith, q.used, ==→ne _ _ e)))

  -- what `pick` is to give
  abbrev pub Picked : KmemCache → Slab × KmemCache → Type 0
  Picked c (s, d) = InHand k outs s d × (s.inuse < k.num) × (d.entry ≡ c.entry)

  pick_from :
      (page : ℕ) (full partial free : List Slab) (c : KmemCache)
      → page % 1024 ≡ 0
      → count page (addresses (full ++ partial)) ≡ 0
      → IsCache k outs (record c { full = full; partial = partial; free_slabs = free })
      → Picked c (pick k page (record c { full = full; partial = partial; free_slabs = free }))
  unfolding pick alloc_slab
  pick_from page full (s ∷ partial) free c a n h = (
    record {
      accounts = Accounts-Perm k w outs _ _ _ (Permᴰ.middle s full partial) h.accounts;
      fulls = h.fulls;
      partials = λ t m. h.partials t (inr m);
      no_free = h.no_free;
      limit = h.limit;
      slabs = omega (arith, h.slabs, length-append full (s ∷ partial), length-append full partial);
      objects = h.objects;
    },
    (h.partials s (inl refl)).1,
    refl,
  )
  pick_from page full [] (s ∷ free) c a n h = absurd (omega (arith, ap length h.no_free))
  pick_from page full [] [] c a n h = (
    record {
      accounts = alloc_slab-Accounts k w outs page _ _ h.accounts a n;
      fulls = h.fulls;
      partials = h.partials;
      no_free = h.no_free;
      limit = h.limit;
      slabs = omega (arith, h.slabs);
      objects = omega (arith, h.objects);
    },
    w.some_object,
    refl,
  )

  pub pick-Picked :
      (page : ℕ) (c : KmemCache)
      → page % 1024 ≡ 0
      → count page (addresses (slabs_of c)) ≡ 0
      → IsCache k outs c
      → Picked c (pick k page c)
  pick-Picked page c a n h = pick_from page c.full c.partial c.free_slabs c a n h

  -- The array may change, while each object is out as often as before.
  pub IsCache-entry :
      (ins : List ℕ) (c : KmemCache) (entry : List ℕ)
      → ((o : ℕ) → count o outs ≡ count o ins)
      → IsCache k outs c
      → IsCache k ins (record c { entry = entry })
  IsCache-entry ins c entry same h = record {
    accounts = Accounts-count k w _ _ _ _ same h.accounts;
    fulls = h.fulls;
    partials = h.partials;
    no_free = h.no_free;
    limit = h.limit;
    slabs = h.slabs;
    objects = h.objects;
  }
