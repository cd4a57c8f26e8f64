-- ===== src/Vma/User.antt =====
-- vma-map/user-vma-map.cpp: the allocator with a search tree beside the list. A node of the list is
-- its `malloc` address, its two bounds, and its place in the chain; the tree is not balanced, and
-- holds the same nodes. `malloc` is outside the program: the address that it returns is an argument.
pub mod Thread
pub mod Search
pub mod Refine
use linux_cpp.Prelude.{
  ℕ, Bool, true, false, Option, none, some, List, [], ◌∷◌, ltb, leb, ◌==◌, if◌then◌else◌,
}
use linux_cpp.Vma.{vm_start, vm_end, add64, vma_align}

-- `struct vm_struct_area`
pub record Node : Type 0 where
  pub ptr : ℕ
  pub start : ℕ
  pub end : ℕ

-- `struct rb_node` with the area around it, and NULL
pub data Tree : Type 0 where
  nil : Tree
  fork : Tree → Node → Tree → Tree

-- the globals: the chain from `g_vm_head`, `g_vm_root`, and whether `g_vm_mutex` is held
pub record Space : Type 0 where
  pub chain : List Node
  pub root : Tree
  pub locked : Bool

pub data Outcome : Type 0 where
  returned : Option Node → Space → Outcome
  blocked : Outcome

-- the descent of `__insert_vm` with `__rb_insert_node` at its end
unfoldable pub insert_node : Node → Tree → Tree
insert_node vma nil = fork nil vma nil
insert_node vma (fork l t r) =
    if leb t.end vma.start then fork l t (insert_node vma r) else fork (insert_node vma l) t r

-- the same descent, for what it leaves in `rb_pre` and `rb_parent`
unfoldable pub link : Node → Tree → Option Node → Option Node → Option Node × Option Node
link vma nil pre parent = (pre, parent)
link vma (fork l t r) pre parent =
    let right = link vma r (some t) (some t) in
    let left = link vma l pre (some t) in if leb t.end vma.start then right else left

-- `vma->next = pre->next; pre->next = vma`
unfoldable pub insert_after : ℕ → Node → List Node → List Node
insert_after p vma [] = []
insert_after p vma (t ∷ ts) = if t.ptr == p then t ∷ vma ∷ ts else t ∷ insert_after p vma ts

-- the chain from the node `p` on
unfoldable pub chain_from : ℕ → List Node → List Node
chain_from p [] = []
chain_from p (t ∷ ts) = let rest = chain_from p ts in if t.ptr == p then t ∷ ts else rest

-- `__rb_insert_list`: the chain from `g_vm_head` afterwards
unfoldable pub insert_list : Node → Option Node → Option Node → List Node → List Node
insert_list vma (some pre) parent chain = insert_after pre.ptr vma chain
insert_list vma none (some parent) chain = vma ∷ chain_from parent.ptr chain
insert_list vma none none chain = vma ∷ []

-- `__insert_vm`
unfoldable pub insert_vm : Node → Space → Space
insert_vm vma s = record s {
  root = insert_node vma s.root;
  chain = insert_list vma (link vma s.root none none).0 (link vma s.root none none).1 s.chain;
}

-- the descent of `__get_unmaped_area`: the area where the search begins
unfoldable pub find_start : ℕ → Tree → Option Node → Option Node
find_start addr nil vma = vma
find_start addr (fork l t r) vma =
    let left = find_start addr l (some t) in
    let right = find_start addr r vma in
    if ltb addr t.end then if leb addr t.start then some t else left else right

abbrev pub chain_at : Option Node → List Node → List Node
chain_at none chain = []
chain_at (some vma) chain = chain_from vma.ptr chain

-- the walk along the chain: the address that it finds
unfoldable pub scan : ℕ → ℕ → List Node → Option ℕ
scan addr size [] =
    if ltb vm_end (add64 addr size)
    then none
    else if ltb (add64 addr size) addr
    then none
    else some addr
scan addr size (t ∷ ts) =
    let rest = scan (vma_align t.end) size ts in
    if ltb vm_end (add64 addr size)
    then none
    else if ltb (add64 addr size) addr
    then none
    else if leb (add64 addr size) t.start
    then some addr
    else rest

abbrev pub new_node : ℕ → ℕ → Option ℕ → Option Node
new_node p size none = none
new_node p size (some addr) = some (record { ptr = p; start = addr; end = add64 addr size })

-- `__get_unmaped_area`
unfoldable pub get_unmaped_area : ℕ → ℕ → Space → Option Node
get_unmaped_area p n s =
    let size = vma_align n in
    new_node p size (scan vm_start size (chain_at (find_start vm_start s.root none) s.chain))

-- `alloc_vma` with the mutex taken; `return NULL` leaves it so
unfoldable pub serve : Option Node → Space → Outcome
serve none s = returned none (record s { locked = true })
serve (some vma) s = returned (some vma) (record (insert_vm vma s) { locked = false })

-- `alloc_vma`
unfoldable pub alloc_vma : ℕ → ℕ → Space → Outcome
alloc_vma p n s =
    if n == 0
    then returned none s
    else if s.locked
    then blocked
    else serve (get_unmaped_area p n s) s
