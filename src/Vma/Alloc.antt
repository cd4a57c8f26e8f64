-- ===== src/Vma/Alloc.antt =====
-- What `alloc_vma` of vma-map/kernel-vma-map.cpp does, call by call and over any sequence of calls.
use linux_cpp.Prelude.{
  ℕ, ◌+◌, ◌%◌, ◌≤◌, ◌<◌, ◌≡◌, ◌⊎◌, refl, true, false, Option, none, some, List, [], arith,
  Bool-cases, inl, inr, ap, sym, ◌≢◌, ==→eq, ==→ne, ◌==◌,
}
use linux_cpp.Vma.{
  Area, Space, Outcome, returned, blocked, vm_start, u64, place, unlock, alloc_vma, vma_align,
}
use linux_cpp.Vma.Layout.{IsLaidOut, IsPlaced}
use linux_cpp.Vma.FirstFit.{Fits, IsFirstFit, place-IsFirstFit}

-- no call is under way, and the areas are laid out
pub record IsReady (s : Space) : Type 0 where
  pub free : s.locked ≡ false
  pub laid_out : IsLaidOut vm_start s.areas

-- What a call has to do: come back, release the mutex, and give the lowest place for the rounded
-- size, or nothing and change nothing if the size rounds to 0 or has no place.
abbrev pub Serves : ℕ → Space → Outcome → Type 0
Serves n s blocked = ⊥
Serves n s (returned none s') =
    (s' ≡ s) × ((vma_align n ≡ 0) ⊎ ((a : ℕ) → ¬ Fits vm_start (vma_align n) s.areas a))
Serves n s (returned (some vma) s') =
    (s'.locked ≡ false)
    × IsPlaced vm_start (vma_align n) s.areas vma s'.areas
    × ((a : ℕ) → Fits vm_start (vma_align n) s.areas a → vma.addr ≤ a)
    × (n ≤ vma.size)
    × (vma.size < n + 8)

-- the rounded size is a multiple of 8, and at least what was asked if it did not wrap
pub vma_align_bounds :
    (n : ℕ)
    → n < u64
    → vma_align n ≢ 0
    → (n ≤ vma_align n) × (vma_align n < n + 8) × (vma_align n % 8 ≡ 0) × (vma_align n < u64)
vma_align_bounds n h p = omega arith

unlock-Serves :
    (n : ℕ) (s : Space) (h : n < u64) (p : vma_align n ≢ 0) (f : s.locked ≡ false)
    (r : Option (Area × List Area))
    → IsFirstFit vm_start (vma_align n) s.areas r
    → Serves n s (unlock r s.areas)
unlock-Serves n s h p f none i = (ap (λ b. record { areas = s.areas; locked = b }) (sym f), inr i)
unlock-Serves n s h p f (some (vma, us)) i =
    let b = vma_align_bounds n h p in
    let e = i.0.size_eq in (refl, i.0, i.1, omega arith, omega arith)

alloc_vma_enters :
    (n : ℕ) (s : Space)
    → (vma_align n == 0) ≡ false
    → s.locked ≡ false
    → alloc_vma n s ≡ unlock (place vm_start (vma_align n) s.areas) s.areas
unfolding alloc_vma
alloc_vma_enters n s e f = simp (e, f)

alloc_vma_zero : (n : ℕ) (s : Space) → (vma_align n == 0) ≡ true → alloc_vma n s ≡ returned none s
unfolding alloc_vma
alloc_vma_zero n s e = rw e

-- A call for `n` bytes on a ready space returns: either no area, with the space as it was, and then
-- `n` rounds to 0 or nowhere is there room for the rounded size; or the lowest area that fits, with at
-- least `n` and fewer than `n` + 8 bytes, put into the list in its place, and the mutex free.
pub alloc_vma-Serves : (n : ℕ) (s : Space) → n < u64 → IsReady s → Serves n s (alloc_vma n s)
alloc_vma-Serves n s h r = elim (Bool-cases (vma_align n == 0)) [
  | inl e ↦ rw (alloc_vma_zero n s e) (refl, inl (==→eq (vma_align n) 0 e))
  | inr e ↦
      let p = ==→ne (vma_align n) 0 e in
      let b = vma_align_bounds n h p in
      rw (alloc_vma_enters n s e r.free) (
        unlock-Serves n s h p r.free (place vm_start (vma_align n) s.areas)
          (place-IsFirstFit (omega arith) b.3 b.2 s.areas vm_start (omega arith) refl r.laid_out))
]

Serves-IsReady :
    (n : ℕ) (s : Space) (v : Option Area) (s' : Space)
    → IsReady s
    → Serves n s (returned v s')
    → IsReady s'
Serves-IsReady n s none s' r h = rw h.0 r
Serves-IsReady n s (some vma) s' r h = record { free = h.0; laid_out = h.1.laid_out }

-- the spaces that the program can come to, from the empty one
pub data Reach : Space → Type 0 where
  fresh : Reach (record { areas = []; locked = false })
  call :
      {s s' : Space} {v : Option Area} (n : ℕ)
      → Reach s
      → n < u64
      → alloc_vma n s ≡ returned v s'
      → Reach s'

-- Whatever was asked before, the areas are in order, aligned, apart and inside the address space,
-- and the mutex is free.
pub Reach-IsReady : {s : Space} → Reach s → IsReady s
Reach-IsReady fresh = record { free = refl; laid_out = tt }
Reach-IsReady (call {s} {s'} {v} n r h e) =
    Serves-IsReady n s v s' (Reach-IsReady r) (rw e at (alloc_vma-Serves n s h (Reach-IsReady r)))
