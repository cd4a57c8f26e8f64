-- ===== src/Tree/Lookup.antt =====
-- The search order of the tree of list/tree.h, and what a name finds after `insert_tree` and
-- `remove_tree`.

use Prim.Native.Nat.Ordering.{lt, eq, gt}
use linux_cpp.Prelude.{ℕ, ◌≡◌, ◌≢◌, inl, inr, refl, Option, none, some, arith}
use linux_cpp.Tree.{Name, Tree, nil, node, comp, find_tree, insert_tree, create_tree}
use linux_cpp.Tree.Order.{
  eq_of_comp, lt_of_gt, gt_of_lt, comp_trans, comp_congr, eq_flip, Ordering-cases,
}

-- every name of the tree satisfies `P`
abbrev pub All {ℓ} : (Name → Type ℓ) → Tree → Type ℓ
All P nil = Unit
All P (node _ n _ l r) = P n × All P l × All P r

abbrev pub IsOrdered : Tree → Type 0
IsOrdered nil = Unit
IsOrdered (node _ n _ l r) =
    All (λ k. comp k n ≡ lt) l × All (λ k. comp n k ≡ lt) r × IsOrdered l × IsOrdered r

pub All-imp {ℓ κ} :
    {P : Name → Type ℓ} {Q : Name → Type κ}
    → ((k : Name) → P k → Q k)
    → (t : Tree) → All P t
    → All Q t
All-imp f nil a = tt
All-imp f (node p n v l r) a = (f n a.0, All-imp f l a.1, All-imp f r a.2)

-- the value of the node that `find_tree` returns
abbrev pub value : Tree → Option ℕ
value nil = none
value (node _ _ v _ _) = some v

abbrev pub get : Name → Tree → Option ℕ
get name t = value (find_tree name t)

pub get_absent : (k : Name) (t : Tree) → All (λ n. comp n k ≢ eq) t → get k t ≡ none
unfolding find_tree
get_absent k nil a = refl
get_absent k (node p n v l r) a =
    ground (arith, get_absent k l a.1, get_absent k r a.2, a.0, eq_flip k n)

All-insert_tree {ℓ} :
    (P : Name → Type ℓ) (p : ℕ) (name : Name) (val : ℕ) (t : Tree)
    → P name
    → All P t
    → All P (insert_tree p name val t)
unfolding insert_tree create_tree
All-insert_tree P p name val nil h a = (h, tt, tt)
All-insert_tree P p name val (node q n v l r) h a =
    ground (arith, All-insert_tree P p name val l h a.1, All-insert_tree P p name val r h a.2)

-- `insert_tree` keeps the search order.
pub insert_tree-IsOrdered :
    (p : ℕ) (name : Name) (val : ℕ) (t : Tree) → IsOrdered t → IsOrdered (insert_tree p name val t)
unfolding insert_tree create_tree
insert_tree-IsOrdered p name val nil o = (tt, tt, tt, tt)
insert_tree-IsOrdered p name val (node q n v l r) o = ground (
  arith,
  insert_tree-IsOrdered p name val l o.2,
  insert_tree-IsOrdered p name val r o.3,
  All-insert_tree (λ k. comp k n ≡ lt) p name val l,
  All-insert_tree (λ k. comp n k ≡ lt) p name val r,
  lt_of_gt name n,
)

-- After `insert_tree` the name, and any other of the same string, has the new value; what all other
-- names find is as before.
pub get-insert_tree :
    (p : ℕ) (name k : Name) (val : ℕ) (t : Tree)
    → IsOrdered t
    → get k (insert_tree p name val t)
      ≡ elim (comp k name) [ eq ↦ some val | lt ↦ get k t | gt ↦ get k t ]
unfolding insert_tree create_tree find_tree
get-insert_tree p name k val nil o = ground arith
get-insert_tree p name k val (node q n v l r) o = elim (Ordering-cases (comp name n)) [
  | inl e ↦
      rw (e, insert_tree)
        (ground (
          arith,
          get-insert_tree p name k val l o.2,
          lt_of_gt k name,
          comp_trans name n k,
          lt_of_gt k n,
          gt_of_lt name k,
          comp_congr name k n,
          eq_of_comp k n,
          gt_of_lt name n,
          eq_flip k name,
        ))
  | inr (inl e) ↦ rw (e, insert_tree) (ground (arith, comp_congr k name n, eq_of_comp name n))
  | inr (inr e) ↦
      rw (e, insert_tree)
        (ground (
          arith,
          get-insert_tree p name k val r o.3,
          lt_of_gt name n,
          comp_trans k n name,
          comp_congr k name n,
          comp_congr name k n,
          eq_of_comp k n,
          eq_flip k name,
        ))
]
