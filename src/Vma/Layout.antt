-- ===== src/Vma/Layout.antt =====
-- The layout that the allocators of vma-map keep: areas in address order, aligned, not empty, not
-- overlapping, and inside the address space.
use linux_cpp.Prelude.{ℕ, ◌+◌, ◌%◌, ◌≤◌, ◌<◌, ◌≡◌, List, [], ◌∷◌}
use linux_cpp.Vma.{Area, vm_end}

-- the areas lie in order from `lo` on
abbrev pub IsLaidOut : ℕ → List Area → Type 0
IsLaidOut lo [] = Unit
IsLaidOut lo (t ∷ ts) =
    (lo ≤ t.addr)
    × (0 < t.size)
    × (t.addr % 8 ≡ 0)
    × (t.size % 8 ≡ 0)
    × (t.addr + t.size ≤ vm_end)
    × IsLaidOut (t.addr + t.size) ts

-- a list and the same with one area put in
pub data Inserted (vma : Area) : List Area → List Area → Type 0 where
  here : {ts : List Area} → Inserted vma ts (vma ∷ ts)
  later : {t : Area} {ts us : List Area} → Inserted vma ts us → Inserted vma (t ∷ ts) (t ∷ us)

-- what a successful search from `lo` gives
pub record IsPlaced (lo size : ℕ) (ts : List Area) (vma : Area) (us : List Area) : Type 0 where
  pub size_eq : vma.size ≡ size
  pub inserted : Inserted vma ts us
  pub laid_out : IsLaidOut lo us

pub IsPlaced-later :
    {lo size : ℕ} {t : Area} {ts us : List Area} {vma : Area}
    → IsLaidOut lo (t ∷ ts)
    → IsPlaced (t.addr + t.size) size ts vma us
    → IsPlaced lo size (t ∷ ts) vma (t ∷ us)
IsPlaced-later h p = record {
  size_eq = p.size_eq;
  inserted = later p.inserted;
  laid_out = (h.0, h.1, h.2, h.3, h.4, p.laid_out);
}
