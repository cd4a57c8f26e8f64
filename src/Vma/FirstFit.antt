-- ===== src/Vma/FirstFit.antt =====
-- The search of vma-map/kernel-vma-map.cpp is first fit: it gives the lowest free place, and says
-- that there is none only if there is none.
use linux_cpp.Prelude.{
  ℕ, ◌+◌, ◌%◌, ◌≤◌, ◌<◌, ◌≡◌, ◌⊎◌, refl, true, false, Option, none, some, List, [], ◌∷◌, arith,
  Bool-cases, inl, inr, ltb, leb, ◌&&◌,
}
use linux_cpp.Vma.{Area, vm_end, u64, add64, area, place, keep, vma_align, out_of_space}
use linux_cpp.Vma.Layout.{IsLaidOut, here, IsPlaced, IsPlaced-later}

-- no area of the list touches the `size` addresses from `a` on
abbrev pub Avoids : ℕ → ℕ → List Area → Type 0
Avoids a size [] = Unit
Avoids a size (t ∷ ts) = ((a + size ≤ t.addr) ⊎ (t.addr + t.size ≤ a)) × Avoids a size ts

-- a free place from `lo` on
pub record Fits (lo size : ℕ) (ts : List Area) (a : ℕ) : Type 0 where
  pub above : lo ≤ a
  pub inside : a + size ≤ vm_end
  pub avoids : Avoids a size ts

-- what the search from `lo` has to give: nothing if nothing fits, else the lowest place
abbrev pub IsFirstFit : ℕ → ℕ → List Area → Option (Area × List Area) → Type 0
IsFirstFit lo size ts none = (a : ℕ) → ¬ Fits lo size ts a
IsFirstFit lo size ts (some (vma, us)) =
    IsPlaced lo size ts vma us × ((a : ℕ) → Fits lo size ts a → vma.addr ≤ a)

-- What does not fit in front of the first area fits behind it, if at all.
Fits-behind :
    {lo size : ℕ} {t : Area} {ts : List Area}
    → t.addr < lo + size
    → (a : ℕ) → Fits lo size (t ∷ ts) a
    → Fits (t.addr + t.size) size ts a
Fits-behind h a f = record { above = ground arith; inside = f.inside; avoids = f.avoids.1 }

keep-IsFirstFit :
    (lo size : ℕ) (t : Area) (ts : List Area)
    → IsLaidOut lo (t ∷ ts)
    → t.addr < lo + size
    → (r : Option (Area × List Area)) → IsFirstFit (t.addr + t.size) size ts r
    → IsFirstFit lo size (t ∷ ts) (keep t r)
keep-IsFirstFit lo size t ts l h none f = λ a g. f a (Fits-behind h a g)
keep-IsFirstFit lo size t ts l h (some (vma, us)) f =
    (IsPlaced-later l f.0, λ a g. f.1 a (Fits-behind h a g))

module _ {size : ℕ} (pos : 0 < size) (small : size < u64) (aligned : size % 8 ≡ 0) where
  module _ {lo : ℕ} (low : lo ≤ vm_end) (lo_aligned : lo % 8 ≡ 0) where
    nothing-Fits : (ts : List Area) → out_of_space lo size ≡ true → (a : ℕ) → ¬ Fits lo size ts a
    nothing-Fits ts e a f = let g = f.inside in let k = f.above in ground arith

    in_space : out_of_space lo size ≡ false → lo + size ≤ vm_end
    in_space e = ground arith

    placed_here :
        (ts : List Area)
        → lo + size ≤ vm_end
        → IsLaidOut (lo + size) ts
        → IsFirstFit lo size ts (some (area lo size, area lo size ∷ ts))
    placed_here ts e l = (
      record {
        size_eq = refl;
        inserted = here;
        laid_out = (omega arith, pos, lo_aligned, aligned, e, l);
      },
      λ a f. f.above,
    )

    placed_before :
        (t : Area) (ts : List Area)
        → IsLaidOut lo (t ∷ ts)
        → lo + size ≤ t.addr
        → IsLaidOut (lo + size) (t ∷ ts)
    placed_before t ts l h = (h, l.1, l.2, l.3, l.4, l.5)

  module _ (lo : ℕ) (t : Area) (ts : List Area) where
    pub place_out : out_of_space lo size ≡ true → place lo size (t ∷ ts) ≡ none
    unfolding place
    place_out e = ground arith

    pub place_before :
        IsLaidOut lo (t ∷ ts)
        → out_of_space lo size ≡ false
        → lo + size ≤ t.addr
        → place lo size (t ∷ ts) ≡ some (area lo size, area lo size ∷ t ∷ ts)
    unfolding place
    place_before l e h = ground arith

    pub place_behind :
        IsLaidOut lo (t ∷ ts)
        → out_of_space lo size ≡ false
        → t.addr < lo + size
        → place lo size (t ∷ ts) ≡ keep t (place (t.addr + t.size) size ts)
    unfolding place
    place_behind l e h =
        let end : vma_align (add64 t.addr t.size) ≡ t.addr + t.size = omega arith in
        let over : ltb lo (add64 t.addr t.size) ≡ true = ground arith in
        let before : (ltb lo t.addr && leb (add64 lo size) t.addr) ≡ false = ground arith in
        rw (e, over, before, end)

  -- From a laid out list and an aligned start, the search for an aligned size other than 0 that is
  -- below 2 ^ 64 finds nothing only if no place fits, and else puts the new area, in order, at the
  -- lowest place that fits.
  pub place-IsFirstFit :
      (ts : List Area) (lo : ℕ)
      → lo ≤ vm_end
      → lo % 8 ≡ 0
      → IsLaidOut lo ts
      → IsFirstFit lo size ts (place lo size ts)
  unfolding place
  place-IsFirstFit [] lo low la l = elim (Bool-cases (out_of_space lo size)) [
    | inl e ↦ rw e (nothing-Fits low la [] e)
    | inr e ↦ rw e (placed_here low la [] (in_space low la e) tt)
  ]
  place-IsFirstFit (t ∷ ts) lo low la l = elim (Bool-cases (out_of_space lo size)) [
    | inl e ↦ rw (place_out lo t ts e) (nothing-Fits low la (t ∷ ts) e)
    | inr e ↦ elim (Bool-cases (leb (lo + size) t.addr)) [
      | inl h ↦ rw (place_before lo t ts l e (ground arith)) (
          placed_here low la (t ∷ ts) (in_space low la e)
            (placed_before low la t ts l (ground arith)))
      | inr h ↦ rw (place_behind lo t ts l e (ground arith)) (
          keep-IsFirstFit lo size t ts l (ground arith) (place (t.addr + t.size) size ts)
            (place-IsFirstFit ts (t.addr + t.size) l.4 (omega arith) l.5))
    ]
  ]
