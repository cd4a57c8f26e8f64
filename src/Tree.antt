-- ===== src/Tree.antt =====
-- list/tree.h: a binary search tree whose keys are C strings.
-- A node carries the address that `malloc` gave it, since the code frees nodes by address; `nil` is
-- the null pointer. A `tree**` is a place in the tree, and what the code stores through it is a new
-- tree. A string is its bytes, none of them 0, and a name may be the null pointer. `malloc` gives
-- the next address of a counter. The console output is left out.
pub mod Order
pub mod Lookup
pub mod Remove
pub mod Memory
mod Tests
use Prim.Native.Nat.{compare, Ordering}
use Prim.Native.Nat.Ordering.{lt, eq, gt}
use linux_cpp.Prelude.{
  ℕ, ◌+◌, suc, Bool, true, false, Option, none, some, List, [], ◌∷◌, ◌++◌, length, ◌==◌,
  if◌then◌else◌,
}

abbrev pub Name : Type 0
Name = Option (List ℕ)

pub data Tree : Type 0 where
  nil : Tree
  node : ℕ → Name → ℕ → Tree → Tree → Tree

-- `strcmp`, as the sign of its result
pub strcmp : List ℕ → List ℕ → Ordering
strcmp [] [] = eq
strcmp [] (_ ∷ _) = lt
strcmp (_ ∷ _) [] = gt
strcmp (x ∷ xs) (y ∷ ys) = elim (compare x y) [ lt ↦ lt | eq ↦ strcmp xs ys | gt ↦ gt ]

-- `comp`, as the sign of its result; a difference of two `strlen` is taken to fit an `int`
pub comp : Name → Name → Ordering
comp none none = eq
comp none (some t) = compare 0 (length t)
comp (some s) none = compare (length s) 0
comp (some s) (some t) = if length s == length t then strcmp s t else compare (length s) (length t)

-- an address is one of those
pub contains : List ℕ → ℕ → Bool
contains [] p = false
contains (q ∷ qs) p = if q == p then true else contains qs p

-- `create_tree`
pub create_tree : ℕ → Name → ℕ → Tree
create_tree p name val = node p name val nil nil

-- `*__find_tree( root, name )`: the tree at the place where the walk ends
pub find_tree : Name → Tree → Tree
find_tree name nil = nil
find_tree name (node p n v l r) = elim (comp name n) [
  | gt ↦ find_tree name r
  | lt ↦ find_tree name l
  | eq ↦ node p n v l r
]

-- The same walk where the addresses `freed` were given to `free`: `none` where it reads a node of them,
-- which is undefined
pub find_live : List ℕ → Name → Tree → Option Tree
unfolding contains
find_live freed name nil = some nil
find_live freed name (node p n v l r) =
    let next : Option Tree = elim (comp name n) [
      | gt ↦ find_live freed name r
      | lt ↦ find_live freed name l
      | eq ↦ some (node p n v l r)
    ] in
    if contains freed p then none else next

-- `insert_tree`, with the address for a new node
pub insert_tree : ℕ → Name → ℕ → Tree → Tree
insert_tree p name val nil = create_tree p name val
insert_tree p name val (node q n v l r) = elim (comp name n) [
  | gt ↦ node q n v l (insert_tree p name val r)
  | lt ↦ node q n v (insert_tree p name val l) r
  | eq ↦ node q n val l r
]

-- `find_replace( &node, e_left )` of a node with these fields: the last node to the right. (No code
-- asks for `e_right`.)
pub find_last_right : Name → ℕ → Tree → Name × ℕ
find_last_right n v nil = (n, v)
find_last_right n v (node _ n' v' _ r') = find_last_right n' v' r'

-- `free( *p )`
abbrev pub free : Tree → List ℕ
free nil = []
free (node p _ _ _ _) = p ∷ []

-- what is done to the node at which the name was found, where it has two children: the name and the
-- value of the one that replaces it, and the left subtree with that one removed
abbrev pub replace_by : ℕ → Name × ℕ → Tree × List ℕ → Tree → Tree × List ℕ
replace_by p (n, v) (l, freed) r = (node p n v l r, freed)

abbrev pub on_left : ℕ → Name → ℕ → Tree → Tree × List ℕ → Tree × List ℕ
on_left p n v r (l, freed) = (node p n v l r, freed)

abbrev pub on_right : ℕ → Name → ℕ → Tree → Tree × List ℕ → Tree × List ℕ
on_right p n v l (r, freed) = (node p n v l r, freed)

-- The node at which the name was found, by its children; `removed` is what removing the replacing
-- node's name from the left subtree gives. With one child the code stores the child in `*p` first,
-- and then frees `*p`.
pub remove_found : ℕ → Tree → Tree → (Name → Tree × List ℕ) → Tree × List ℕ
remove_found p nil nil removed = (nil, p ∷ [])
remove_found p (node q n v l r) nil removed = (node q n v l r, free (node q n v l r))
remove_found p nil (node q n v l r) removed = (node q n v l r, free (node q n v l r))
remove_found p (node _ n v _ r) (node q' n' v' l' r') removed =
    let new = find_last_right n v r in replace_by p new (removed new.0) (node q' n' v' l' r')

-- `remove_tree`: the tree, and the addresses that it frees
pub remove_tree : Name → Tree → Tree × List ℕ
remove_tree name nil = (nil, [])
remove_tree name (node p n v l r) = elim (comp name n) [
  | gt ↦ on_right p n v l (remove_tree name r)
  | lt ↦ on_left p n v r (remove_tree name l)
  | eq ↦ remove_found p l r (λ m. remove_tree m l)
]

-- whether `insert_tree` calls `malloc`
abbrev pub allocated : Name → Tree → ℕ
allocated name t = elim (find_tree name t) [ nil ↦ 1 | node _ _ _ _ _ ↦ 0 ]

-- `copy_tree( tar, src )`, with the next free address before and after
pub copy_tree : Tree → ℕ × Tree → ℕ × Tree
copy_tree nil s = s
copy_tree (node _ n v l r) (next, tar) =
    copy_tree r (copy_tree l (next + allocated n tar, insert_tree next n v tar))

-- `tree_size`
pub tree_size : Tree → ℕ
tree_size nil = 0
tree_size (node _ _ _ l r) = 1 + tree_size l + tree_size r

-- `free_tree`: the tree that is left, and the addresses in the order in which they are freed
abbrev pub free_node : ℕ → Name → ℕ → Tree × List ℕ → Tree × List ℕ → Tree × List ℕ
free_node p n v (nil, xs) (nil, ys) = (nil, xs ++ (ys ++ (p ∷ [])))
free_node p n v (l, xs) (r, ys) = (node p n v l r, xs ++ ys)

pub free_tree : Tree → Tree × List ℕ
free_tree nil = (nil, [])
free_tree (node p n v l r) = free_node p n v (free_tree l) (free_tree r)
