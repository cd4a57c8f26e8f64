-- ===== src/Tree/Tests.antt =====
-- Runs of list/tree.h on a tree of five names.

use Prim.Native.Nat.Ordering.{lt, eq, gt}
use linux_cpp.Prelude.{inl, inr, arith, ◌≡◌, refl, none, some, [], ◌∷◌}
use linux_cpp.Tree.{
  find_live, contains, Name, Tree, nil, node, comp, strcmp, find_tree, insert_tree, find_last_right,
  remove_found, remove_tree,
}
use linux_cpp.Tree.Lookup.{IsOrdered, get, get-insert_tree}
use linux_cpp.Tree.Memory.{
  Apart, find_live-remove_tree, HasNode, only_child, remove_tree-only_child,
}

abbrev a : Name
a = some (b'a' ∷ [])

abbrev b : Name
b = some (b'b' ∷ [])

abbrev aa : Name
aa = some (b'a' ∷ b'a' ∷ [])

abbrev ab : Name
ab = some (b'a' ∷ b'b' ∷ [])

-- `aa` above `b` (with `a` to its left) and `ab`
abbrev four : Tree
four = node 1 aa 10 (node 2 b 20 (node 3 a 30 nil nil) nil) (node 4 ab 40 nil nil)

four-IsOrdered : IsOrdered four
unfolding comp strcmp
four-IsOrdered = (
  (refl, (refl, tt, tt), tt),
  (refl, tt, tt),
  ((refl, tt, tt), tt, (tt, tt, tt, tt), tt),
  (tt, tt, tt, tt),
)

shorter_first : comp b aa ≡ lt
unfolding comp strcmp
shorter_first = refl

null_is_empty : comp none (some []) ≡ eq
unfolding comp
null_is_empty = refl

removes_root : (remove_tree aa four).0 ≡ node 1 b 20 (node 3 a 30 nil nil) (node 4 ab 40 nil nil)
unfolding remove_tree remove_found find_last_right comp strcmp
removes_root = refl

-- The node 2 goes out of the tree; the node 3 is freed, and is still there.
frees_child :
    remove_tree b four ≡ (node 1 aa 10 (node 3 a 30 nil nil) (node 4 ab 40 nil nil), 3 ∷ [])
unfolding remove_tree remove_found find_last_right comp strcmp
frees_child = refl

get-insert_tree_example :
    get ab (insert_tree 5 none 50 four)
    ≡ elim (comp ab none) [ eq ↦ some 50 | lt ↦ get ab four | gt ↦ get ab four ]
get-insert_tree_example = get-insert_tree 5 none ab 50 four four-IsOrdered

-- The leaf 4 is freed, and no node that stays has its address.
leaf-Apart : Apart (remove_tree ab four).1 (remove_tree ab four).0
unfolding remove_tree remove_found comp strcmp
leaf-Apart = (
  λ h. elim h [
    | inl e ↦ absurd (omega (arith, e))
    | inr (inl (inl e)) ↦ absurd (omega (arith, e))
    | inr (inl (inr (inl (inl e)))) ↦ absurd (omega (arith, e))
    | inr (inl (inr (inl (inr (inl f))))) ↦ f
    | inr (inl (inr (inl (inr (inr f))))) ↦ f
    | inr (inl (inr (inr f))) ↦ f
    | inr (inr f) ↦ f
  ],
  tt,
)

find_live-remove_tree_example :
    (find_live (remove_tree ab four).1 b (remove_tree ab four).0
      ≡ some (find_tree b (remove_tree ab four).0))
    × (get b (remove_tree ab four).0
        ≡ elim (comp b ab) [ eq ↦ none | lt ↦ get b four | gt ↦ get b four ])
find_live-remove_tree_example = find_live-remove_tree ab b four four-IsOrdered leaf-Apart

-- A later search for `a` reads the node 3, which was freed.
finds_freed : find_live (remove_tree b four).1 a (remove_tree b four).0 ≡ none
unfolding remove_tree remove_found find_last_right find_live contains comp strcmp
finds_freed = refl

finds_b : only_child (find_tree b four) ≡ some (node 3 a 30 nil nil)
unfolding find_tree comp strcmp
finds_b = refl

remove_tree-only_child_example :
    ((remove_tree b four).1 ≡ 3 ∷ []) × HasNode 3 (remove_tree b four).0
remove_tree-only_child_example = remove_tree-only_child b four 3 a 30 nil nil finds_b
