-- ===== src/Vma/User/Refine.antt =====
-- The allocator of vma-map/user-vma-map.cpp keeps its tree and its chain in step, and gives the
-- areas that the one of vma-map/kernel-vma-map.cpp gives.
use linux_cpp.Prelude.{
  ℕ, ◌%◌, ◌≤◌, ◌<◌, ◌≡◌, ◌≢◌, inl, inr, refl, sym, ap, ◌∙◌, true, false, Option, none, some, List,
  [], ◌∷◌, ne→==, arith, Bool-cases,
}
use linux_cpp.Vma.{Area, vm_start, u64, vma_align, out_of_space, place}
use linux_cpp.Vma.Layout.{IsLaidOut}
use linux_cpp.Vma.User.{
  Node, Tree, nil, fork, Space, Outcome, returned, blocked, insert_vm, insert_node, insert_list,
  link, find_start, chain_from, chain_at, scan, new_node, get_unmaped_area, serve, alloc_vma,
}
use linux_cpp.Vma.User.Thread.{
  inorder, IsOrdered, IsFresh, IsDistinct, insert_sorted, inorder-insert_node, insert_list-inorder,
}
use linux_cpp.Vma.FirstFit.{IsFirstFit, place-IsFirstFit}
use linux_cpp.Vma.Alloc.{vma_align_bounds}
use linux_cpp.Vma.User.Search.{
  span, spans, node_at, found, scan_bounds, scan_behind, scan_out, place-scan, spans-IsOrdered,
  IsLaidOut-tail,
}

-- The first area begins at the start of the space, and so is the root for good.
abbrev pub IsRooted : Tree → Type 0
IsRooted nil = Unit
IsRooted (fork l t r) = (l ≡ nil) × (t.start ≡ vm_start)

-- no call is under way; the tree and the chain hold the same areas, and these are laid out
pub record IsValid (s : Space) : Type 0 where
  pub free : s.locked ≡ false
  pub thread : inorder s.root ≡ s.chain
  pub distinct : IsDistinct s.chain
  pub laid_out : IsLaidOut vm_start (spans s.chain)
  pub rooted : IsRooted s.root

-- The search begins at the head of the chain.
start-head :
    (root : Tree) (chain : List Node)
    → IsRooted root
    → inorder root ≡ chain
    → IsOrdered vm_start chain
    → chain_at (find_start vm_start root none) chain ≡ chain
unfolding find_start
start-head nil chain r e o = rw (← e)
start-head (fork l t r) chain (q, z) e o =
    let c : t ∷ inorder r ≡ chain = rw q at e in
    let o' : IsOrdered vm_start (t ∷ inorder r) = rw (← c) at o in
    rw (← c) (unfold chain_from in ground arith)

module _ (vma : Node) where
  IsFresh-insert_sorted :
      (q : ℕ) (ts : List Node) → vma.ptr ≢ q → IsFresh q ts → IsFresh q (insert_sorted vma ts)
  IsFresh-insert_sorted q [] n f = (n, tt)
  IsFresh-insert_sorted q (t ∷ ts) n f = ground (arith, IsFresh-insert_sorted q ts n f.1)

  IsDistinct-insert_sorted :
      (ts : List Node) → IsFresh vma.ptr ts → IsDistinct ts → IsDistinct (insert_sorted vma ts)
  IsDistinct-insert_sorted [] f d = (tt, tt)
  IsDistinct-insert_sorted (t ∷ ts) f d = ground (
    arith,
    IsDistinct-insert_sorted ts f.1 d.1,
    IsFresh-insert_sorted t.ptr ts (λ e. f.0 (sym e)) d.0,
  )

  IsRooted-insert_node :
      (root : Tree) (chain : List Node)
      → IsRooted root
      → inorder root ≡ chain
      → ((chain ≡ []) → vma.start ≡ vm_start)
      → ((t : Node) (ts : List Node) → chain ≡ t ∷ ts → t.end ≤ vma.start)
      → IsRooted (insert_node vma root)
  unfolding insert_node
  IsRooted-insert_node nil chain r e f g = (refl, f (sym e))
  IsRooted-insert_node (fork l t r) chain (q, z) e f g =
      let c : t ∷ inorder r ≡ chain = rw q at e in ground (arith, g t (inorder r) (sym c))

  insert_vm-chain : (s : Space) → IsValid s → (insert_vm vma s).chain ≡ insert_sorted vma s.chain
  unfolding insert_vm
  insert_vm-chain s v =
      let o : IsOrdered vm_start (inorder s.root) =
        rw v.thread (spans-IsOrdered vm_start s.chain v.laid_out) in
      let d : IsDistinct (inorder s.root) = rw v.thread v.distinct in
      ap (insert_list vma (link vma s.root none none).0 (link vma s.root none none).1)
        (sym v.thread)
      ∙ insert_list-inorder vma vm_start s.root o d
      ∙ inorder-insert_node vma vm_start s.root o
      ∙ ap (insert_sorted vma) v.thread

  insert_vm-thread :
      (s : Space) → IsValid s → inorder (insert_vm vma s).root ≡ (insert_vm vma s).chain
  insert_vm-thread s v =
      let o : IsOrdered vm_start (inorder s.root) =
        rw v.thread (spans-IsOrdered vm_start s.chain v.laid_out) in
      unfold insert_vm in
      inorder-insert_node vma vm_start s.root o
      ∙ ap (insert_sorted vma) v.thread
      ∙ sym (insert_vm-chain s v)

-- What a call may do, where `r` is what the allocator of the list alone finds for the rounded size:
-- fail with the mutex held, or give the same area, change the chain in the same way, and stay valid.
abbrev pub Refines : ℕ → Space → Option (Area × List Area) → Outcome → Type 0
Refines p s r blocked = ⊥
Refines p s none (returned none s') = s' ≡ record s { locked = true }
Refines p s none (returned (some vma) s') = ⊥
Refines p s (some (a, us)) (returned none s') = ⊥
Refines p s (some (a, us)) (returned (some vma) s') =
    (span vma ≡ a) × (vma.ptr ≡ p) × (spans s'.chain ≡ us) × IsValid s'

-- The first area of the chain begins at the start of the space.
head-start :
    (root : Tree) (chain : List Node) (t : Node) (ts : List Node)
    → IsRooted root
    → inorder root ≡ chain
    → chain ≡ t ∷ ts
    → t.start ≡ vm_start
head-start nil chain t ts r e c = cc
head-start (fork l x r) chain t ts (q, z) e c =
    let d : x ∷ inorder r ≡ chain = rw q at e in ground (arith, d, c)

module _ (p size : ℕ) (pos : 0 < size) (small : size < u64) (aligned : size % 8 ≡ 0) where
  -- A new area lies behind the first one, if there is one.
  scan_first :
      (chain : List Node) (a : ℕ)
      → IsLaidOut vm_start (spans chain)
      → ((t : Node) (ts : List Node) → chain ≡ t ∷ ts → t.start ≡ vm_start)
      → scan vm_start size chain ≡ some a
      → ((chain ≡ []) → a ≡ vm_start) × ((t : Node) (ts : List Node) → chain ≡ t ∷ ts → t.end ≤ a)
  scan_first [] a l h e = (λ _. unfold scan in ground arith, λ t ts c. cc)
  scan_first (t ∷ ts) a l h e =
      let k = IsLaidOut-tail t ts l in
      let z : t.start ≡ vm_start = h t ts refl in
      let below : t.end ≤ a = elim (Bool-cases (out_of_space vm_start size)) [
        | inl o ↦ absurd (cc (scan_out p size pos small aligned t ts vm_start o))
        | inr o ↦
            (scan_bounds p size pos small ts t.end a k.2 k.4
              (sym (scan_behind p size pos small aligned t ts vm_start l o (omega arith)) ∙ e)).0
      ] in
      (λ c. cc, λ t' ts' c. ground (arith, below, c))

  module _ (s : Space) (v : IsValid s) (fresh : IsFresh p s.chain) where
    granted-IsLaidOut :
        (a : ℕ)
        → scan vm_start size s.chain ≡ some a
        → IsLaidOut vm_start (spans (insert_sorted (node_at p size a) s.chain))
    granted-IsLaidOut a e =
        let f : IsFirstFit vm_start size (spans s.chain)
            (found p size s.chain (scan vm_start size s.chain)) =
          rw (place-scan p size pos small aligned s.chain vm_start (omega arith) v.laid_out) at (
            place-IsFirstFit pos small aligned (spans s.chain) vm_start (omega arith) refl
              v.laid_out) in
        let g : IsFirstFit vm_start size (spans s.chain) (found p size s.chain (some a)) =
          rw e at f in
        g.0.laid_out

    granted-IsValid :
        (a : ℕ)
        → scan vm_start size s.chain ≡ some a
        → IsValid (record (insert_vm (node_at p size a) s) { locked = false })
    granted-IsValid a e =
        let vma = node_at p size a in
        let c = insert_vm-chain vma s v in
        let w =
          scan_first s.chain a v.laid_out (λ t ts. head-start s.root s.chain t ts v.rooted v.thread)
            e in
        record {
          free = refl;
          thread = insert_vm-thread vma s v;
          distinct = rw c (IsDistinct-insert_sorted vma s.chain fresh v.distinct);
          laid_out = rw c (granted-IsLaidOut a e);
          rooted =
              unfold insert_vm in IsRooted-insert_node vma s.root s.chain v.rooted v.thread w.0 w.1;
        }

    granted :
        (a : ℕ)
        → scan vm_start size s.chain ≡ some a
        → Refines p s (found p size s.chain (some a)) (serve (some (node_at p size a)) s)
    unfolding serve
    granted a e =
        let b = scan_bounds p size pos small s.chain vm_start a (omega arith) v.laid_out e in
        (
          ground (arith, b),
          refl,
          ap spans (insert_vm-chain (node_at p size a) s v),
          granted-IsValid a e,
        )

serve-Refines :
    (p size : ℕ) (s : Space)
    → IsValid s
    → IsFresh p s.chain
    → 0 < size
    → size < u64
    → size % 8 ≡ 0
    → (o : Option ℕ) → scan vm_start size s.chain ≡ o
    → Refines p s (found p size s.chain o) (serve (new_node p size o) s)
serve-Refines p size s v f pos small al none e = unfold serve in refl
serve-Refines p size s v f pos small al (some a) e = granted p size pos small al s v f a e

alloc_vma-serve :
    (p n : ℕ) (s : Space)
    → IsValid s
    → n ≢ 0
    → alloc_vma p n s ≡ serve (new_node p (vma_align n) (scan vm_start (vma_align n) s.chain)) s
unfolding alloc_vma get_unmaped_area
alloc_vma-serve p n s v h = simp (
  ne→== n 0 h,
  v.free,
  start-head s.root s.chain v.rooted v.thread (spans-IsOrdered vm_start s.chain v.laid_out),
)

-- A call on a valid space for a size that does not round to 0 gives the area that the allocator of
-- the list alone gives, changes the chain as that one does, and keeps the space valid; where that
-- one finds nothing, it fails and keeps the mutex.
pub alloc_vma-Refines :
    (p n : ℕ) (s : Space)
    → IsValid s
    → IsFresh p s.chain
    → n < u64
    → vma_align n ≢ 0
    → Refines p s (place vm_start (vma_align n) (spans s.chain)) (alloc_vma p n s)
alloc_vma-Refines p n s v f h q =
    let b = vma_align_bounds n h q in
    rw
      (
        alloc_vma-serve p n s v (λ e. q (ap vma_align e)),
        place-scan p (vma_align n) (omega arith) b.3 b.2 s.chain vm_start (omega arith) v.laid_out,
      )
      (serve-Refines p (vma_align n) s v f (omega arith) b.3 b.2 _ refl)
