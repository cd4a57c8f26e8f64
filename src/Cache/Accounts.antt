-- ===== src/Cache/Accounts.antt =====
-- cache/cache.h: the slabs of a cache together, in any order, and the objects that are out of them.
use mathlib.Core.List.{Permᴰ}
use mathlib.Core.List.Permᴰ
use linux_cpp.Prelude.{
  ℕ, zero, suc, ◌+◌, ◌-◌, ◌*◌, ◌≤◌, ◌<◌, ◌≡◌, ◌≢◌, refl, ap, ◌∙◌, ◌==◌, List, [], ◌∷◌, length, In,
  arith, inl, inr, ◌⊎◌, false,
}
use linux_cpp.Cache.{Slab, Sizes, index_to_obj, addresses}
use linux_cpp.Cache.Bounds.{IsSizes}
use linux_cpp.Cache.Counts.{count, count_head}
use linux_cpp.Cache.Slabs.{IsSlab}

-- the objects in the free lists
unfoldable pub spare : Sizes → List Slab → ℕ
spare k [] = 0
spare k (s ∷ ss) = (k.num - s.inuse) + spare k ss

-- `o` is an object of one of the slabs
abbrev pub IsObject : Sizes → List Slab → ℕ → Type 0
IsObject k ss o = (s : Slab) × In s ss × (i : ℕ) × (i < k.num) × (o ≡ index_to_obj k i s)

pub record Accounts (k : Sizes) (outs : List ℕ) (ss : List Slab) (nfree : ℕ) : Type 0 where
  pub each : (s : Slab) → In s ss → IsSlab k outs s
  pub distinct : (a : ℕ) → count a (addresses ss) ≤ 1
  pub known : (o : ℕ) → 0 < count o outs → IsObject k ss o
  pub sum : nfree ≡ spare k ss

pub In-Perm : {ss ts : List Slab} → Permᴰ ss ts → (s : Slab) → In s ss → In s ts
In-Perm Permᴰ.nil s h = h
In-Perm (Permᴰ.cons e p) s (inl h) = inl (h ∙ e)
In-Perm (Permᴰ.cons e p) s (inr h) = inr (In-Perm p s h)
In-Perm (Permᴰ.swap e f) s (inl h) = inr (inl (h ∙ e))
In-Perm (Permᴰ.swap e f) s (inr (inl h)) = inl (h ∙ f)
In-Perm (Permᴰ.swap e f) s (inr (inr h)) = inr (inr h)
In-Perm (Permᴰ.trans p q) s h = In-Perm q s (In-Perm p s h)

addresses-Perm :
    {ss ts : List Slab} → Permᴰ ss ts → (a : ℕ) → count a (addresses ss) ≡ count a (addresses ts)
unfolding addresses count
addresses-Perm Permᴰ.nil a = refl
addresses-Perm (Permᴰ.cons e p) a = rw e (omega (arith, addresses-Perm p a))
addresses-Perm (Permᴰ.swap e f) a = rw (e, f) (omega arith)
addresses-Perm (Permᴰ.trans p q) a = addresses-Perm p a ∙ addresses-Perm q a

spare-Perm : (k : Sizes) {ss ts : List Slab} → Permᴰ ss ts → spare k ss ≡ spare k ts
unfolding spare
spare-Perm k Permᴰ.nil = refl
spare-Perm k (Permᴰ.cons e p) = rw e (omega (arith, spare-Perm k p))
spare-Perm k (Permᴰ.swap e f) = rw (e, f) (omega arith)
spare-Perm k (Permᴰ.trans p q) = spare-Perm k p ∙ spare-Perm k q

pub length-Perm : {ss ts : List Slab} → Permᴰ ss ts → length ss ≡ length ts
length-Perm Permᴰ.nil = refl
length-Perm (Permᴰ.cons e p) = ap suc (length-Perm p)
length-Perm (Permᴰ.swap e f) = refl
length-Perm (Permᴰ.trans p q) = length-Perm p ∙ length-Perm q

pub count-In : (s : Slab) (ss : List Slab) → In s ss → 0 < count s.address (addresses ss)
unfolding addresses count
count-In s [] h = absurd h
count-In s (t ∷ ss) (inl e) = rw e (omega (arith, count_head t.address (addresses ss)))
count-In s (t ∷ ss) (inr h) = omega (arith, count-In s ss h)

-- the objects stay those of the slab when what it says of them changes
pub keep-IsObject :
    (k : Sizes) (s t : Slab) (rest : List Slab) (o : ℕ)
    → s.address ≡ t.address
    → IsObject k (s ∷ rest) o
    → IsObject k (t ∷ rest) o
keep-IsObject k s t rest o e (u, inl y, i, l, z) = (
  t,
  inl refl,
  i,
  l,
  z ∙ ap (λ (v : Slab). index_to_obj k i v) y ∙ ap (λ a. a + k.slabsize + i * k.size) e,
)
keep-IsObject k s t rest o e (u, inr m, i, l, z) = (u, inr m, i, l, z)

pub zero-cases : (n : ℕ) → (n ≡ 0) ⊎ (0 < n)
zero-cases zero = inl refl
zero-cases (suc n) = inr (omega arith)

module _ (k : Sizes) (w : IsSizes k) where
  pub Accounts-Perm :
      (outs : List ℕ) (ss ts : List Slab) (n : ℕ)
      → Permᴰ ss ts
      → Accounts k outs ss n
      → Accounts k outs ts n
  Accounts-Perm outs ss ts n p a = record {
    each = λ s h. a.each s (In-Perm (Permᴰ.symm p) s h);
    distinct = λ x. omega (arith, addresses-Perm p x, a.distinct x);
    known = λ o h. let (s, m, i, l, e) = a.known o h in (s, In-Perm p s m, i, l, e);
    sum = a.sum ∙ spare-Perm k p;
  }

  -- only how often each object is out matters
  pub Accounts-count :
      (outs ins : List ℕ) (ss : List Slab) (n : ℕ)
      → ((o : ℕ) → count o outs ≡ count o ins)
      → Accounts k outs ss n
      → Accounts k ins ss n
  Accounts-count outs ins ss n c a = record {
    each = λ s h.
        let p = a.each s h in
        record {
          chain = p.chain;
          linked = p.linked;
          wide = p.wide;
          once = λ i l. omega (arith, p.once i l, c (index_to_obj k i s));
          used = p.used;
          aligned = p.aligned;
        };
    distinct = a.distinct;
    known = λ o h. a.known o (omega (arith, h, c o));
    sum = a.sum;
  }

  pub other_count : (x o : ℕ) (outs : List ℕ) → (x == o) ≡ false → count o (x ∷ outs) ≡ count o outs
  unfolding count
  other_count x o outs e = rw e (omega arith)

  pub more : (x o : ℕ) (outs : List ℕ) → count o outs ≤ count o (x ∷ outs)
  unfolding count
  more x o outs = omega arith

  pub other_address :
      (outs : List ℕ) (s t : Slab) (rest : List Slab) (n : ℕ)
      → Accounts k outs (s ∷ rest) n
      → In t rest
      → t.address ≢ s.address
  unfolding addresses count
  other_address outs s t rest n a h e = absurd (
      omega (
        arith,
        a.distinct s.address,
        count_head s.address (addresses rest),
        ap (λ b. count b (addresses rest)) e,
        count-In t rest h,
      ))
