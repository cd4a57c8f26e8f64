-- ===== src/Cache/Run.antt =====
-- cache/cache.h: the states that calls of `kmem_alloc` and `kmem_free` lead to, in any order.
use mathlib.Core.Path.{subst}
use mathlib.Core.Option.{some-injective}
use linux_cpp.Prelude.{
  ℕ, ◌<◌, ◌≡◌, refl, sym, ap, ◌∙◌, List, [], ◌∷◌, ◌++◌, arith, ◌%◌, some, append-nil,
}
use linux_cpp.Cache.{Slab, Sizes, KmemCache, addresses, kmem_alloc, empty_cache}
use linux_cpp.Cache.Free.{kmem_free}
use linux_cpp.Cache.Bounds.{IsSizes}
use linux_cpp.Cache.Counts.{count, count-append}
use linux_cpp.Cache.Accounts.{spare}
use linux_cpp.Cache.Moves.{slabs_of, IsCache-entry}
use linux_cpp.Cache.Growth.{Holds, kmem_alloc-Holds}
use linux_cpp.Cache.Calls.{kmem_free-Holds}

-- the slabs of all three lists
abbrev pub all_slabs : KmemCache → List Slab
all_slabs c = c.full ++ (c.partial ++ c.free_slabs)

pub all_slabs-eq : (c : KmemCache) → c.free_slabs ≡ [] → all_slabs c ≡ slabs_of c
all_slabs-eq c e =
    ap (λ (l : List Slab). c.full ++ (c.partial ++ l)) e
    ∙ ap (λ (l : List Slab). c.full ++ l) (append-nil c.partial)

-- A page that `aligned_alloc` may return: aligned, and not in use by a slab of the cache.
pub record IsFresh (page : ℕ) (c : KmemCache) : Type 0 where
  pub aligned : page % 1024 ≡ 0
  pub unused : count page (addresses (all_slabs c)) ≡ 0

-- A cache after some calls, each of which returned; the callers have the objects `user`.
pub data Reach (k : Sizes) : List ℕ → KmemCache → Type 0 where
  made : Reach k [] empty_cache
  allocated :
      {user : List ℕ} {c : KmemCache} (page o : ℕ) (d : KmemCache)
      → Reach k user c
      → IsFresh page c
      → kmem_alloc k (page ∷ []) c ≡ some (o, d)
      → Reach k (o ∷ user) d
  freed :
      (front back : List ℕ) {c : KmemCache} (behind o : ℕ) (d : KmemCache)
      → Reach k (front ++ (o ∷ back)) c
      → kmem_free k behind 2 o c ≡ some d
      → Reach k (front ++ back) d

pub fresh_page :
    (page : ℕ) (c : KmemCache)
    → IsFresh page c
    → c.free_slabs ≡ []
    → count page (addresses (slabs_of c)) ≡ 0
fresh_page page c f e =
    sym (ap (λ (l : List Slab). count page (addresses l)) (all_slabs-eq c e)) ∙ f.unused

module _ (k : Sizes) (w : IsSizes k) (b : 0 < k.batchcount) where
  empty-Holds : Holds k [] empty_cache
  unfolding count addresses spare
  empty-Holds = record {
    cache = record {
      accounts = record {
        each = λ s m. absurd m;
        distinct = λ a. omega arith;
        known = λ o h. absurd (omega (arith, h));
        sum = refl;
      };
      fulls = λ s m. absurd m;
      partials = λ s m. absurd m;
      no_free = refl;
      limit = refl;
      slabs = refl;
      objects = omega arith;
    };
    bound = omega arith;
  }

  pub to_front :
      (front back : List ℕ) (o : ℕ) (c : KmemCache)
      → Holds k (front ++ (o ∷ back)) c
      → Holds k (o ∷ (front ++ back)) c
  unfolding count
  to_front front back o c h = record {
    cache =
        IsCache-entry k w _ _ c c.entry
          (λ x. omega (
            arith,
            count-append x c.entry (front ++ (o ∷ back)),
            count-append x front (o ∷ back),
            count-append x c.entry (o ∷ (front ++ back)),
            count-append x front back,
          ))
          h.cache;
    bound = h.bound;
  }

  pub Reach-Holds : {user : List ℕ} {c : KmemCache} → Reach k user c → Holds k user c
  Reach-Holds made = empty-Holds
  Reach-Holds (allocated {user} {c} page o d r f e) =
      let old = Reach-Holds r in
      let (p, q, g, h) =
        kmem_alloc-Holds k w user page c b f.aligned (fresh_page page c f old.cache.no_free) old in
      let same = some-injective _ _ (sym g ∙ e) in
      subst (λ (x : ℕ × KmemCache). Holds k (x.0 ∷ user) x.1) same h
  Reach-Holds (freed front back {c} behind o d r e) =
      let (q, g, h) =
        kmem_free-Holds k w behind o (front ++ back) c b
          (to_front front back o c (Reach-Holds r)) in
      subst (λ (x : KmemCache). Holds k (front ++ back) x) (some-injective _ _ (sym g ∙ e)) h
