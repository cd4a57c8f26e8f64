-- ===== src/Tree/Memory.antt =====
-- list/tree.h: which nodes the functions allocate and free, and what `copy_tree` copies.
use Prim.Native.Nat.Ordering.{lt, eq, gt}
use linux_cpp.Prelude.{
  false, if_elim, ==→eq, ◌==◌, ℕ, ◌+◌, ◌≡◌, ◌⊎◌, inl, inr, refl, ap, ◌∙◌, sym, Option, none, some,
  List, [], ◌∷◌, ◌++◌, arith,
}
use linux_cpp.Tree.{
  Name, Tree, nil, node, comp, find_tree, insert_tree, create_tree, remove_found, remove_tree,
  allocated, copy_tree, find_live, contains, tree_size, free_tree,
}
use linux_cpp.Tree.Order.{Ordering-cases}
use linux_cpp.Tree.Lookup.{IsOrdered, get, insert_tree-IsOrdered, get-insert_tree}
use linux_cpp.Tree.Remove.{
  get-remove_tree, remove_lt, remove_eq, remove_gt, get-node, get_below, get_above, get-nil,
}

-- the addresses of the nodes, children first
pub postorder : Tree → List ℕ
postorder nil = []
postorder (node p n v l r) = postorder l ++ (postorder r ++ (p ∷ []))

-- `free_tree` leaves the null pointer, and frees every node once, after its children.
pub free_tree-postorder : (t : Tree) → free_tree t ≡ (nil, postorder t)
unfolding free_tree postorder
free_tree-postorder nil = refl
free_tree-postorder (node p n v l r) = simp (free_tree-postorder l, free_tree-postorder r)

module _ (p : ℕ) (name n : Name) (v : ℕ) (l r : Tree) where
  find_lt : comp name n ≡ lt → find_tree name (node p n v l r) ≡ find_tree name l
  unfolding find_tree
  find_lt e = rw (e, find_tree)

  find_gt : comp name n ≡ gt → find_tree name (node p n v l r) ≡ find_tree name r
  unfolding find_tree
  find_gt e = rw (e, find_tree)

  find_eq : comp name n ≡ eq → find_tree name (node p n v l r) ≡ node p n v l r
  unfolding find_tree
  find_eq e = rw (e, find_tree)

-- a node of the tree has the address `q`
abbrev pub HasNode : ℕ → Tree → Type 0
HasNode q nil = ⊥
HasNode q (node p n v l r) = (p ≡ q) ⊎ HasNode q l ⊎ HasNode q r

-- the one child of a node that has one
abbrev pub only_child : Tree → Option Tree
only_child nil = none
only_child (node p n v nil nil) = none
only_child (node p n v (node a b c d e) nil) = some (node a b c d e)
only_child (node p n v nil (node a b c d e)) = some (node a b c d e)
only_child (node p n v (node _ _ _ _ _) (node _ _ _ _ _)) = none

remove_found-only_child :
    (p : ℕ) (n : Name) (v : ℕ) (l r : Tree) (q : ℕ) (n' : Name) (v' : ℕ) (l' r' : Tree)
    → only_child (node p n v l r) ≡ some (node q n' v' l' r')
    → remove_found p l r (λ m. remove_tree m l) ≡ (node q n' v' l' r', q ∷ [])
unfolding remove_found
remove_found-only_child p n v nil nil q n' v' l' r' e = cc
remove_found-only_child p n v (node a b c d f) nil q n' v' l' r' e = ground arith
remove_found-only_child p n v nil (node a b c d f) q n' v' l' r' e = ground arith
remove_found-only_child p n v (node _ _ _ _ _) (node _ _ _ _ _) q n' v' l' r' e = cc

-- Where the node that is found has one child, `remove_tree` frees the child, which stays in the
-- tree, and does not free the node.
pub remove_tree-only_child :
    (name : Name) (t : Tree) (q : ℕ) (n' : Name) (v' : ℕ) (l' r' : Tree)
    → only_child (find_tree name t) ≡ some (node q n' v' l' r')
    → ((remove_tree name t).1 ≡ q ∷ []) × HasNode q (remove_tree name t).0
remove_tree-only_child name nil q n' v' l' r' e = unfold find_tree remove_tree in cc
remove_tree-only_child name (node p n v l r) q n' v' l' r' e = elim (Ordering-cases (comp name n)) [
  | inl o ↦
      let ih =
        remove_tree-only_child name l q n' v' l' r'
          (ap only_child (sym (find_lt p name n v l r o)) ∙ e) in
      rw (remove_lt p name n v l r o) (ih.0, inr (inl ih.1))
  | inr (inl o) ↦
      rw
        (
          remove_eq p name n v l r o,
          remove_found-only_child p n v l r q n' v' l' r'
              (ap only_child (sym (find_eq p name n v l r o)) ∙ e),
        )
        (refl, inl refl)
  | inr (inr o) ↦
      let ih =
        remove_tree-only_child name r q n' v' l' r'
          (ap only_child (sym (find_gt p name n v l r o)) ∙ e) in
      rw (remove_gt p name n v l r o) (ih.0, inr (inr ih.1))
]

-- no address is one of a node of the tree
abbrev pub Apart : List ℕ → Tree → Type 0
Apart [] t = Unit {0}
Apart (q ∷ qs) t = (HasNode q t → ⊥) × Apart qs t

Apart-sub :
    (qs : List ℕ) (t u : Tree) → ((q : ℕ) → HasNode q u → HasNode q t) → Apart qs t → Apart qs u
Apart-sub [] t u f a = tt
Apart-sub (q ∷ qs) t u f (h, a) = (λ n. h (f q n), Apart-sub qs t u f a)

root_live :
    (qs : List ℕ) (p : ℕ) (n : Name) (v : ℕ) (l r : Tree)
    → Apart qs (node p n v l r)
    → contains qs p ≡ false
unfolding contains
root_live [] p n v l r a = refl
root_live (q ∷ qs) p n v l r (h, a) =
    if_elim (λ b. b ≡ false) (q == p) _ _ (λ e. absurd (h (inl (sym (==→eq q p e)))))
      (λ e. root_live qs p n v l r a)

-- Where no node of the tree was freed, the walk reads no freed node.
find_live-find_tree :
    (qs : List ℕ) (k : Name) (t : Tree) → Apart qs t → find_live qs k t ≡ some (find_tree k t)
unfolding find_live find_tree
find_live-find_tree qs k nil a = refl
find_live-find_tree qs k (node p n v l r) a =
    let ihl = find_live-find_tree qs k l (Apart-sub qs (node p n v l r) l (λ q m. inr (inl m)) a) in
    let ihr = find_live-find_tree qs k r (Apart-sub qs (node p n v l r) r (λ q m. inr (inr m)) a) in
    rw (root_live qs p n v l r a) (elim (Ordering-cases (comp k n)) [
      | inl e ↦ rw (e, find_live, find_tree) ihl
      | inr (inl e) ↦ rw (e, find_live, find_tree) refl
      | inr (inr e) ↦ rw (e, find_live, find_tree) ihr
    ])

-- On a search tree, and where `remove_tree` frees no node that stays in the tree: a later search for any
-- name reads no freed node. The name that was removed, and any other of the same string, then finds
-- nothing, and what all other names find is as before.
pub find_live-remove_tree :
    (name k : Name) (t : Tree)
    → IsOrdered t
    → Apart (remove_tree name t).1 (remove_tree name t).0
    → (find_live (remove_tree name t).1 k (remove_tree name t).0
        ≡ some (find_tree k (remove_tree name t).0))
      × (get k (remove_tree name t).0
          ≡ elim (comp k name) [ eq ↦ none | lt ↦ get k t | gt ↦ get k t ])
find_live-remove_tree name k t o a = (
  find_live-find_tree (remove_tree name t).1 k (remove_tree name t).0 a,
  get-remove_tree name k t o,
)

-- `tree_size` grows by one exactly where `insert_tree` allocates a node.
pub tree_size-insert_tree :
    (p : ℕ) (name : Name) (val : ℕ) (t : Tree)
    → tree_size (insert_tree p name val t) ≡ tree_size t + allocated name t
unfolding tree_size insert_tree create_tree find_tree
tree_size-insert_tree p name val nil = refl
tree_size-insert_tree p name val (node q n v l r) =
    ground (arith, tree_size-insert_tree p name val l, tree_size-insert_tree p name val r)

abbrev pub or_else : Option ℕ → Option ℕ → Option ℕ
or_else (some v) o = some v
or_else none o = o

copied :
    (k : Name) (p : ℕ) (n : Name) (v : ℕ) (l r : Tree) (next : ℕ) (tar : Tree)
    → IsOrdered (node p n v l r)
    → IsOrdered tar
    → or_else (get k r) (or_else (get k l) (get k (insert_tree next n v tar)))
      ≡ or_else (get k (node p n v l r)) (get k tar)
copied k p n v l r next tar o t = ground (
  arith,
  get-node k p n v l r,
  get_below k n r o.1,
  get_above k n l o.0,
  get-insert_tree next n k v tar t,
)

-- What a name finds after `copy_tree` is what it finds in the source, or else in the target; the
-- target keeps its order.
pub copy_tree-get :
    (k : Name) (src : Tree) (next : ℕ) (tar : Tree)
    → IsOrdered src
    → IsOrdered tar
    → (get k (copy_tree src (next, tar)).1 ≡ or_else (get k src) (get k tar))
      × IsOrdered (copy_tree src (next, tar)).1
unfolding copy_tree
copy_tree-get k nil next tar o t = rw (get-nil k) (refl, t)
copy_tree-get k (node p n v l r) next tar o t =
    let tar1 = insert_tree next n v tar in
    let h1 = insert_tree-IsOrdered next n v tar t in
    let next1 = next + allocated n tar in
    let ihl = copy_tree-get k l next1 tar1 o.2 h1 in
    let s2 = copy_tree l (next1, tar1) in
    let ihr = copy_tree-get k r s2.0 s2.1 o.3 ihl.1 in
    (ihr.0 ∙ ap (or_else (get k r)) ihl.0 ∙ copied k p n v l r next tar o t, ihr.1)
