-- ===== src/Vma.antt =====
-- vma-map/kernel-vma-map.cpp, and what it has in common with kernel-vma-map/test.cpp and
-- vma-map/user-vma-map.cpp: areas of a small address space, kept as a list in address order.
-- `unsigned long` has 64 bits. An area is what the list node holds beside its `next` pointer; the
-- list itself is the chain of nodes from `g_vm_head`, and `p` of the loop a place in it.
pub mod Layout
pub mod FirstFit
pub mod Alloc
pub mod Early
pub mod User
mod Tests
use linux_cpp.Prelude.{
  ℕ, suc, ◌+◌, ◌*◌, ◌/◌, ◌%◌, ◌^◌, Bool, true, false, ◌&&◌, Option, none, some, List, [], ◌∷◌, ltb,
  leb, ◌==◌, if◌then◌else◌,
}

-- `struct vm_struct_area`
pub record Area : Type 0 where
  pub addr : ℕ
  pub size : ℕ

abbrev pub vm_start : ℕ
vm_start = 0

abbrev pub vm_end : ℕ
vm_end = 0x400

abbrev pub u64 : ℕ
u64 = 2 ^ 64

abbrev pub add64 : ℕ → ℕ → ℕ
add64 a b = (a + b) % u64

-- `VMA_ALIGN( addr )`: the sum may wrap; clearing the low three bits is a division and a product
abbrev pub vma_align : ℕ → ℕ
vma_align a = add64 a 7 / 8 * 8

-- `vma_size`: the nodes from `vma` on
pub vma_size : List Area → ℕ
vma_size [] = 0
vma_size (_ ∷ ts) = suc (vma_size ts)

-- `malloc` of the new area
abbrev pub area : ℕ → ℕ → Area
area addr size = record { addr = addr; size = size }

-- the two checks for `goto out`
abbrev pub out_of_space : ℕ → ℕ → Bool
out_of_space addr size = if ltb (add64 addr size) addr then true else ltb vm_end (add64 addr size)

-- what stands before `*p` in the list stays as it is
abbrev pub keep : Area → Option (Area × List Area) → Option (Area × List Area)
keep t none = none
keep t (some (vma, ts)) = some (vma, t ∷ ts)

-- The `for` loop of `alloc_vma` and what follows it, from `*p` on: the new area and the rest of the
-- list with it put in, or the jump to `out`.
pub place : ℕ → ℕ → List Area → Option (Area × List Area)
place addr size [] =
    if out_of_space addr size then none else some (area addr size, area addr size ∷ [])
place addr size (t ∷ ts) =
    let overlaps = ltb addr (add64 t.addr t.size) in
    let rest =
      keep t (place (if overlaps then vma_align (add64 t.addr t.size) else addr) size ts) in
    if out_of_space addr size
    then none
    else if overlaps && (ltb addr t.addr && leb (add64 addr size) t.addr)
    then some (area addr size, area addr size ∷ t ∷ ts)
    else rest

-- the globals `g_vm_head` and `g_vm_mutex`
pub record Space : Type 0 where
  pub areas : List Area
  pub locked : Bool

-- A call comes back with the state that it leaves, or waits for the mutex for ever.
pub data Outcome : Type 0 where
  returned : Option Area → Space → Outcome
  blocked : Outcome

abbrev pub unlock : Option (Area × List Area) → List Area → Outcome
unlock none areas = returned none (record { areas = areas; locked = false })
unlock (some (vma, areas')) areas = returned (some vma) (record { areas = areas'; locked = false })

-- `alloc_vma`
pub alloc_vma : ℕ → Space → Outcome
alloc_vma n s =
    let size = vma_align n in
    if size == 0
    then returned none s
    else if s.locked
    then blocked
    else unlock (place vm_start size s.areas) s.areas
