-- ===== src/Vma/User/Search.antt =====
-- The search of vma-map/user-vma-map.cpp along the chain against the one of
-- vma-map/kernel-vma-map.cpp.
use linux_cpp.Prelude.{
  ℕ, ◌+◌, ◌-◌, ◌%◌, ◌≤◌, ◌<◌, ◌≡◌, inl, inr, refl, true, false, Option, none, some, List, [], ◌∷◌,
  leb, arith, Bool-cases,
}
use linux_cpp.Vma.{Area, area, vm_end, u64, add64, vma_align, out_of_space, keep, place}
use linux_cpp.Vma.Layout.{IsLaidOut}
use linux_cpp.Vma.FirstFit.{place_out, place_before, place_behind}
use linux_cpp.Vma.User.{Node, scan}
use linux_cpp.Vma.User.Thread.{IsOrdered, insert_sorted}

abbrev pub span : Node → Area
span t = area t.start (t.end - t.start)

-- the chain, as the other allocator has it
abbrev pub spans : List Node → List Area
spans [] = []
spans (t ∷ ts) = span t ∷ spans ts

abbrev pub node_at : ℕ → ℕ → ℕ → Node
node_at p size a = record { ptr = p; start = a; end = add64 a size }

pub IsLaidOut-tail :
    {lo : ℕ} (t : Node) (ts : List Node)
    → IsLaidOut lo (spans (t ∷ ts))
    → (t.start < t.end)
      × (t.start + (t.end - t.start) ≡ t.end)
      × (t.end ≤ vm_end)
      × (t.end % 8 ≡ 0)
      × IsLaidOut t.end (spans ts)
IsLaidOut-tail t ts l =
    let e : t.start + (t.end - t.start) ≡ t.end = omega arith in
    (omega arith, e, omega arith, omega arith, rw e at l.5)

pub spans-IsOrdered : (lo : ℕ) (ts : List Node) → IsLaidOut lo (spans ts) → IsOrdered lo ts
spans-IsOrdered lo [] l = tt
spans-IsOrdered lo (t ∷ ts) l =
    let k = IsLaidOut-tail t ts l in (l.0, k.0, spans-IsOrdered t.end ts k.4)

-- what the other search gives, for the address that this one gives
abbrev pub found : ℕ → ℕ → List Node → Option ℕ → Option (Area × List Area)
found p size ts none = none
found p size ts (some a) = some (area a size, spans (insert_sorted (node_at p size a) ts))

module _ (p size : ℕ) (pos : 0 < size) (small : size < u64) where
  pub scan_bounds :
      (ts : List Node) (lo a : ℕ)
      → lo ≤ vm_end
      → IsLaidOut lo (spans ts)
      → scan lo size ts ≡ some a
      → (lo ≤ a) × (a + size ≤ vm_end)
  unfolding scan
  scan_bounds [] lo a h l e = ground arith
  scan_bounds (t ∷ ts) lo a h l e =
      let k = IsLaidOut-tail t ts l in
      let fix : vma_align t.end ≡ t.end = omega arith in ground (arith, fix, scan_bounds ts t.end a)

  keep-found :
      (t : Node) (ts : List Node) (o : Option ℕ)
      → ((a : ℕ) → o ≡ some a → t.end ≤ a)
      → keep (span t) (found p size ts o) ≡ found p size (t ∷ ts) o
  keep-found t ts none h = refl
  keep-found t ts (some a) h = ground (arith, h a refl)

  module _ (aligned : size % 8 ≡ 0) where
    pub scan_behind :
        (t : Node) (ts : List Node) (lo : ℕ)
        → IsLaidOut lo (spans (t ∷ ts))
        → out_of_space lo size ≡ false
        → t.start < lo + size
        → scan lo size (t ∷ ts) ≡ scan t.end size ts
    unfolding scan
    scan_behind t ts lo l e h =
        let fix : vma_align t.end ≡ t.end = omega (arith, IsLaidOut-tail t ts l) in
        rw fix (ground arith)

    pub scan_before :
        (t : Node) (ts : List Node) (lo : ℕ)
        → out_of_space lo size ≡ false
        → lo + size ≤ t.start
        → scan lo size (t ∷ ts) ≡ some lo
    unfolding scan
    scan_before t ts lo e h = ground arith

    pub scan_out :
        (t : Node) (ts : List Node) (lo : ℕ)
        → out_of_space lo size ≡ true
        → scan lo size (t ∷ ts) ≡ none
    unfolding scan
    scan_out t ts lo e = ground arith

    -- The two searches agree along a laid out chain.
    pub place-scan :
        (ts : List Node) (lo : ℕ)
        → lo ≤ vm_end
        → IsLaidOut lo (spans ts)
        → place lo size (spans ts) ≡ found p size ts (scan lo size ts)
    place-scan [] lo h l = unfold place scan in ground arith
    place-scan (t ∷ ts) lo h l =
        let k = IsLaidOut-tail t ts l in
        elim (Bool-cases (out_of_space lo size)) [
          | inl e ↦ rw (place_out pos small aligned lo (span t) (spans ts) e, scan_out t ts lo e)
          | inr e ↦ elim (Bool-cases (leb (lo + size) t.start)) [
            | inl b ↦
                rw
                  (
                    place_before pos small aligned lo (span t) (spans ts) l e (ground arith),
                    scan_before t ts lo e (ground arith),
                  )
                  (ground arith)
            | inr b ↦
                rw
                  (
                    place_behind pos small aligned lo (span t) (spans ts) l e (ground arith),
                    scan_behind t ts lo l e (ground arith),
                    k.1,
                    place-scan ts t.end k.2 k.4,
                  )
                  (keep-found t ts (scan t.end size ts)
                    (λ a q. (scan_bounds ts t.end a k.2 k.4 q).0))
          ]
        ]
