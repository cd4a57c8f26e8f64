-- ===== src/Vma/Early.antt =====
-- kernel-vma-map/test.cpp: the earlier version of the allocator, with the same areas and globals. It
-- gives up with the mutex held, and does not look at the end of the space behind the last area.
use linux_cpp.Prelude.{
  ℕ, ◌+◌, ◌≤◌, ◌<◌, ◌≡◌, ◌≢◌, true, false, ◌&&◌, Option, none, some, List, [], ◌∷◌, ltb, leb, ◌==◌,
  if◌then◌else◌, arith, Option-cases, inl, inr,
}
use linux_cpp.Vma.{
  Area, Space, Outcome, returned, blocked, vm_start, vm_end, add64, area, keep, out_of_space,
  vma_align,
}
use linux_cpp.Vma.Layout.{IsLaidOut}

-- the loop from `*p` on and the insertion behind it; `none` is a `return NULL` of the loop
unfoldable pub place : ℕ → ℕ → List Area → Option (Area × List Area)
place addr size [] = some (area addr size, area addr size ∷ [])
place addr size (t ∷ ts) =
    let overlaps = ltb addr (add64 t.addr t.size) in
    let rest =
      keep t (place (if overlaps then vma_align (add64 t.addr t.size) else addr) size ts) in
    if out_of_space addr size
    then none
    else if overlaps && (ltb addr t.addr && leb (add64 addr size) t.addr)
    then some (area addr size, area addr size ∷ t ∷ ts)
    else rest

abbrev pub finish : Option (Area × List Area) → List Area → Outcome
finish none areas = returned none (record { areas = areas; locked = true })
finish (some (vma, areas')) areas = returned (some vma) (record { areas = areas'; locked = false })

-- `alloc_vma`
unfoldable pub alloc_vma : ℕ → Space → Outcome
alloc_vma n s =
    let size = vma_align n in
    if size == 0
    then returned none s
    else if s.locked
    then blocked
    else finish (place vm_start size s.areas) s.areas

-- After a call that found no place, every further call for a size that does not round to 0 waits
-- for ever.
pub alloc_vma-blocked :
    (n m : ℕ) (s s' : Space)
    → vma_align n ≢ 0
    → vma_align m ≢ 0
    → alloc_vma n s ≡ returned none s'
    → alloc_vma m s' ≡ blocked
unfolding alloc_vma
alloc_vma-blocked n m s s' p q e = elim (Option-cases (place vm_start (vma_align n) s.areas)) [
  | inl f ↦ ground (arith, f)
  | inr (r, f) ↦ ground (arith, f)
]

-- Where the first area begins at 0 and the rest of the space is too small, the new area reaches
-- beyond the end of the space.
pub alloc_vma_beyond :
    (n : ℕ) (t : Area)
    → IsLaidOut vm_start (t ∷ [])
    → t.addr ≡ vm_start
    → 0 < n
    → n ≤ vm_end
    → vm_end < t.size + n
    → (vma : Area) × (s' : Space) × (alloc_vma n (record { areas = t ∷ []; locked = false })
        ≡ returned (some vma) s')
      × (vm_end < vma.addr + vma.size)
unfolding alloc_vma place
alloc_vma_beyond n t l e p h k = (
  area t.size (vma_align n),
  record { areas = t ∷ area t.size (vma_align n) ∷ []; locked = false },
  ground arith,
  ground arith,
)
