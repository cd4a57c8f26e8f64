-- ===== src/Tree/Remove.antt =====
-- `remove_tree` of list/tree.h keeps the search order, and takes out the one name that it is given.
use Prim.Native.Nat.Ordering.{lt, eq, gt}
use linux_cpp.Prelude.{ℕ, ◌≡◌, ◌≢◌, inl, inr, refl, none, some, List, arith}
use linux_cpp.Tree.{
  Name, Tree, nil, node, comp, find_tree, find_last_right, remove_found, remove_tree, on_left,
  on_right,
}
use linux_cpp.Tree.Order.{
  eq_of_comp, comp-eq, lt_of_gt, gt_of_lt, comp_trans, comp_congr, congr_comp, eq_flip,
  Ordering-cases,
}
use linux_cpp.Tree.Lookup.{All, IsOrdered, All-imp, get, get_absent}

All-zip :
    {P Q R : Name → Type 0}
    → ((k : Name) → P k → Q k → R k)
    → (t : Tree) → All P t
    → All Q t
    → All R t
All-zip f nil a b = tt
All-zip f (node p n v l r) a b = (f n a.0 b.0, All-zip f l a.1 b.1, All-zip f r a.2 b.2)

module _ {ℓ} (P : Name → Type ℓ) where
  All-find_last_right :
      (p : ℕ) (n : Name) (v : ℕ) (l r : Tree) → All P (node p n v l r) → P (find_last_right n v r).0
  unfolding find_last_right
  All-find_last_right p n v l nil a = a.0
  All-find_last_right p n v l (node q n' v' l' r') a = All-find_last_right q n' v' l' r' a.2

  All-remove_found :
      (p : ℕ) (l r : Tree) (removed : Name → Tree × List ℕ)
      → All P l
      → All P r
      → ((m : Name) → All P (removed m).0)
      → All P (remove_found p l r removed).0
  unfolding remove_found
  All-remove_found p nil nil removed a b c = tt
  All-remove_found p (node q n v l r) nil removed a b c = a
  All-remove_found p nil (node q n v l r) removed a b c = b
  All-remove_found p (node q n v l r) (node q' n' v' l' r') removed a b c =
      (All-find_last_right q n v l r a, c (find_last_right n v r).0, b)

  All-remove_tree : (name : Name) (t : Tree) → All P t → All P (remove_tree name t).0
  unfolding remove_tree
  All-remove_tree name nil a = tt
  All-remove_tree name (node p n v l r) a = ground (
    arith,
    All-remove_tree name l a.1,
    All-remove_tree name r a.2,
    All-remove_found p l r (λ m. remove_tree m l) a.1 a.2 (λ m. All-remove_tree m l a.1),
  )

module _ (p : ℕ) (name n : Name) (v : ℕ) (l r : Tree) where
  pub remove_lt :
      comp name n ≡ lt → remove_tree name (node p n v l r) ≡ on_left p n v r (remove_tree name l)
  unfolding remove_tree
  remove_lt e = rw (e, remove_tree)

  pub remove_gt :
      comp name n ≡ gt → remove_tree name (node p n v l r) ≡ on_right p n v l (remove_tree name r)
  unfolding remove_tree
  remove_gt e = rw (e, remove_tree)

  pub remove_eq :
      comp name n ≡ eq
      → remove_tree name (node p n v l r) ≡ remove_found p l r (λ m. remove_tree m l)
  unfolding remove_tree
  remove_eq e = rw (e, remove_tree)

-- The replacing node is the greatest.
find_last_right_greatest :
    (p : ℕ) (n : Name) (v : ℕ) (l r : Tree)
    → IsOrdered (node p n v l r)
    → All (λ k. comp k (find_last_right n v r).0 ≢ gt) (node p n v l r)
unfolding find_last_right
find_last_right_greatest p n v l nil o =
    (ground (arith, comp-eq n n refl), All-imp (λ k h. ground (arith, h)) l o.0, tt)
find_last_right_greatest p n v l (node q n' v' l' r') o =
    let m = (find_last_right n' v' r').0 in
    let above : comp n m ≡ lt = All-find_last_right (λ k. comp n k ≡ lt) q n' v' l' r' o.1 in
    (
      ground (arith, above),
      All-imp (λ k h. ground (arith, above, comp_trans k n m h)) l o.0,
      find_last_right_greatest q n' v' l' r' o.3,
    )

get-find_last_right :
    (p : ℕ) (n : Name) (v : ℕ) (l r : Tree)
    → IsOrdered (node p n v l r)
    → get (find_last_right n v r).0 (node p n v l r) ≡ some (find_last_right n v r).1
unfolding find_last_right find_tree
get-find_last_right p n v l nil o = ground (arith, comp-eq n n refl)
get-find_last_right p n v l (node q n' v' l' r') o =
    let m = (find_last_right n' v' r').0 in
    ground (
      arith,
      All-find_last_right (λ k. comp n k ≡ lt) q n' v' l' r' o.1,
      gt_of_lt n m,
      get-find_last_right q n' v' l' r' o.3,
    )

-- A name below `n` is not one that is `n` or above it, nor the other way round.
ne_of_below : (k n name : Name) → comp name n ≢ lt → comp k n ≡ lt → comp k name ≢ eq
ne_of_below k n name g h =
    ground (arith, comp_congr n k name, eq_of_comp k name, gt_of_lt k n, lt_of_gt n name, h)

ne_of_above : (k n name : Name) → comp name n ≢ gt → comp n k ≡ lt → comp k name ≢ eq
ne_of_above k n name g h =
    ground (arith, comp_congr n k name, eq_of_comp k name, gt_of_lt n name, lt_of_gt n name, h)

-- No name of that string is left.
pub remove_tree-gone :
    (name : Name) (t : Tree) → IsOrdered t → All (λ k. comp k name ≢ eq) (remove_tree name t).0
remove_tree-gone name nil o = unfold remove_tree in tt
remove_tree-gone name (node p n v l r) o =
    let below = λ (g : comp name n ≢ lt). All-imp (λ k. ne_of_below k n name g) l o.0 in
    let above = λ (g : comp name n ≢ gt). All-imp (λ k. ne_of_above k n name g) r o.1 in
    elim (Ordering-cases (comp name n)) [
      | inl e ↦
          rw (remove_lt p name n v l r e)
            (ground (arith, eq_flip n name), remove_tree-gone name l o.2, above (cc))
      | inr (inl e) ↦ rw (remove_eq p name n v l r e) (
          All-remove_found _ p l r (λ m. remove_tree m l) (below (cc)) (above (cc))
            (λ m. All-remove_tree _ m l (below (cc))))
      | inr (inr e) ↦
          rw (remove_gt p name n v l r e)
            (ground (arith, eq_flip n name), below (cc), remove_tree-gone name r o.3)
    ]

-- A node with two children: the replacing name stands between what is left below and above it.
replaced-IsOrdered :
    (p : ℕ) (n : Name) (q : ℕ) (n' : Name) (v' : ℕ) (l' r' r : Tree)
    → All (λ k. comp k n ≡ lt) (node q n' v' l' r')
    → All (λ k. comp n k ≡ lt) r
    → IsOrdered (node q n' v' l' r')
    → IsOrdered r
    → IsOrdered (remove_tree (find_last_right n' v' r').0 (node q n' v' l' r')).0
    → IsOrdered (remove_found p (node q n' v' l' r') r (λ m. remove_tree m (node q n' v' l' r'))).0
unfolding remove_found
replaced-IsOrdered p n q n' v' l' r' nil a b o s h = o
replaced-IsOrdered p n q n' v' l' r' (node u w x y z) a b o s h =
    let t = node q n' v' l' r' in
    let m = (find_last_right n' v' r').0 in
    let m_low = All-find_last_right (λ k. comp k n ≡ lt) q n' v' l' r' a in
    let most =
      All-remove_tree (λ k. comp k m ≢ gt) m t (find_last_right_greatest q n' v' l' r' o) in
    let low =
      All-zip (λ k g e. ground (arith, Ordering-cases (comp k m))) (remove_tree m t).0 most
        (remove_tree-gone m t o) in
    (low, All-imp (λ k. comp_trans m n k m_low) (node u w x y z) b, h, s)

found-IsOrdered :
    (p : ℕ) (n : Name) (l r : Tree)
    → All (λ k. comp k n ≡ lt) l
    → All (λ k. comp n k ≡ lt) r
    → IsOrdered l
    → IsOrdered r
    → ((m : Name) → IsOrdered (remove_tree m l).0)
    → IsOrdered (remove_found p l r (λ m. remove_tree m l)).0
found-IsOrdered p n nil nil a b o s h = unfold remove_found in tt
found-IsOrdered p n nil (node u w x y z) a b o s h = unfold remove_found in s
found-IsOrdered p n (node q n' v' l' r') r a b o s h =
    replaced-IsOrdered p n q n' v' l' r' r a b o s (h (find_last_right n' v' r').0)

-- `remove_tree` keeps the search order.
pub remove_tree-IsOrdered :
    (name : Name) (t : Tree) → IsOrdered t → IsOrdered (remove_tree name t).0
remove_tree-IsOrdered name nil o = unfold remove_tree in tt
remove_tree-IsOrdered name (node p n v l r) o = elim (Ordering-cases (comp name n)) [
  | inl e ↦
      rw (remove_lt p name n v l r e)
        (All-remove_tree _ name l o.0, o.1, remove_tree-IsOrdered name l o.2, o.3)
  | inr (inl e) ↦
      rw (remove_eq p name n v l r e)
        (found-IsOrdered p n l r o.0 o.1 o.2 o.3 (λ m. remove_tree-IsOrdered m l o.2))
  | inr (inr e) ↦
      rw (remove_gt p name n v l r e)
        (o.0, All-remove_tree _ name r o.1, o.2, remove_tree-IsOrdered name r o.3)
]

-- What a name that is neither above nor below finds.
pub get_below :
    (k n : Name) (r : Tree) → All (λ j. comp n j ≡ lt) r → comp k n ≢ gt → get k r ≡ none
get_below k n r b h = get_absent k r (All-imp (λ j. ne_of_above j n k h) r b)

pub get_above :
    (k n : Name) (l : Tree) → All (λ j. comp j n ≡ lt) l → comp k n ≢ lt → get k l ≡ none
get_above k n l a h = get_absent k l (All-imp (λ j. ne_of_below j n k h) l a)

get_beyond : (k m : Name) (t : Tree) → All (λ j. comp j m ≢ gt) t → comp k m ≡ gt → get k t ≡ none
get_beyond k m t a h =
    get_absent k t (All-imp (λ j g. ground (arith, congr_comp m j k, eq_of_comp j k, g)) t a)

get_congr : (k m : Name) (t : Tree) → comp k m ≡ eq → get k t ≡ get m t
unfolding find_tree
get_congr k m nil e = refl
get_congr k m (node p n v l r) e =
    ground (arith, congr_comp n k m, eq_of_comp k m, get_congr k m l e, get_congr k m r e)

pub get-nil : (k : Name) → get k nil ≡ none
unfolding find_tree
get-nil k = refl

pub get-node :
    (k : Name) (p : ℕ) (n : Name) (v : ℕ) (l r : Tree)
    → get k (node p n v l r) ≡ elim (comp k n) [ lt ↦ get k l | eq ↦ some v | gt ↦ get k r ]
unfolding find_tree
get-node k p n v l r = ground arith

-- What any other name finds where the node has two children.
get-replaced :
    (k : Name) (p : ℕ) (n : Name) (v q : ℕ) (n' : Name) (v' : ℕ) (l' r' r : Tree)
    → IsOrdered (node p n v (node q n' v' l' r') r)
    → comp k n ≢ eq
    → let m = (find_last_right n' v' r').0 in
      let rest = (remove_tree m (node q n' v' l' r')).0 in
      (comp k m ≢ eq → get k rest ≡ get k (node q n' v' l' r'))
      → get k (node p m (find_last_right n' v' r').1 rest r)
        ≡ get k (node p n v (node q n' v' l' r') r)
get-replaced k p n v q n' v' l' r' r o h ih =
    let t = node q n' v' l' r' in
    let m = (find_last_right n' v' r').0 in
    let rest = (remove_tree m t).0 in
    ground (
      arith,
      get-node k p m (find_last_right n' v' r').1 rest r,
      get-node k p n v t r,
      All-find_last_right (λ j. comp j n ≡ lt) q n' v' l' r' o.0,
      get-find_last_right q n' v' l' r' o.2,
      get_congr k m t,
      congr_comp n k m,
      eq_of_comp k m,
      comp_trans k m n,
      get_below k n r o.1,
      get_beyond k m t (find_last_right_greatest q n' v' l' r' o.2),
    )

-- What any other name finds where the name is found at this node.
get-found :
    (k : Name) (p : ℕ) (n : Name) (v : ℕ) (l r : Tree)
    → IsOrdered (node p n v l r)
    → comp k n ≢ eq
    → ((m : Name) → comp k m ≢ eq → get k (remove_tree m l).0 ≡ get k l)
    → get k (remove_found p l r (λ m. remove_tree m l)).0 ≡ get k (node p n v l r)
unfolding remove_found
get-found k p n v nil nil o h ih = ground (arith, get-nil k, get-node k p n v nil nil)
get-found k p n v nil (node u w x y z) o h ih =
    ground
      (arith, get-nil k, get-node k p n v nil (node u w x y z), get_below k n (node u w x y z) o.1)
get-found k p n v (node q n' v' l' r') nil o h ih = ground (
  arith,
  get-nil k,
  get-node k p n v (node q n' v' l' r') nil,
  get_above k n (node q n' v' l' r') o.0,
)
get-found k p n v (node q n' v' l' r') (node u w x y z) o h ih =
    get-replaced k p n v q n' v' l' r' (node u w x y z) o h (ih (find_last_right n' v' r').0)

get-remove_tree_ne :
    (name k : Name) (t : Tree)
    → IsOrdered t
    → comp k name ≢ eq
    → get k (remove_tree name t).0 ≡ get k t
get-remove_tree_ne name k nil o h = unfold remove_tree in refl
get-remove_tree_ne name k (node p n v l r) o h = elim (Ordering-cases (comp name n)) [
  | inl e ↦ rw (remove_lt p name n v l r e) (
      ground (
        arith,
        get-node k p n v (remove_tree name l).0 r,
        get-node k p n v l r,
        get-remove_tree_ne name k l o.2 h,
      ))
  | inr (inl e) ↦ rw (remove_eq p name n v l r e) (
      get-found k p n v l r o (ground (arith, comp_congr k name n, eq_of_comp name n))
        (λ m g. get-remove_tree_ne m k l o.2 g))
  | inr (inr e) ↦ rw (remove_gt p name n v l r e) (
      ground (
        arith,
        get-node k p n v l (remove_tree name r).0,
        get-node k p n v l r,
        get-remove_tree_ne name k r o.3 h,
      ))
]

-- what the names find in the tree that is left, its nodes taken to be intact
pub get-remove_tree :
    (name k : Name) (t : Tree)
    → IsOrdered t
    → get k (remove_tree name t).0 ≡ elim (comp k name) [ eq ↦ none | lt ↦ get k t | gt ↦ get k t ]
get-remove_tree name k t o = elim (Ordering-cases (comp k name)) [
  | inl e ↦ rw e (get-remove_tree_ne name k t o (cc))
  | inr (inl e) ↦ rw e (
      get_absent k (remove_tree name t).0 (
        All-imp (λ j g. ground (arith, comp_congr j k name, eq_of_comp k name, g))
          (remove_tree name t).0 (remove_tree-gone name t o)))
  | inr (inr e) ↦ rw e (get-remove_tree_ne name k t o (cc))
]
