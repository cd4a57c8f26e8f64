-- ===== src/Vma/User/Thread.antt =====
-- The tree and the chain of vma-map/user-vma-map.cpp hold the same areas in the same order:
-- `__insert_vm` puts a new area at its place in both.
use linux_cpp.Prelude.{
  ℕ, ◌≤◌, ◌<◌, ◌≡◌, ◌≢◌, refl, sym, ◌∙◌, Option, none, some, List, [], ◌∷◌, ◌++◌, leb,
  if◌then◌else◌, arith,
}
use linux_cpp.Vma.User.{
  Node, Tree, nil, fork, insert_node, link, insert_after, chain_from, insert_list,
}

-- the nodes of a tree from left to right
abbrev pub inorder : Tree → List Node
inorder nil = []
inorder (fork l t r) = inorder l ++ (t ∷ inorder r)

-- in address order from `lo` on, and none empty
abbrev pub IsOrdered : ℕ → List Node → Type 0
IsOrdered lo [] = Unit
IsOrdered lo (t ∷ ts) = (lo ≤ t.start) × (t.start < t.end) × IsOrdered t.end ts

-- no node of the list has the address `p`
abbrev pub IsFresh : ℕ → List Node → Type 0
IsFresh p [] = Unit
IsFresh p (t ∷ ts) = (t.ptr ≢ p) × IsFresh p ts

abbrev pub IsDistinct : List Node → Type 0
IsDistinct [] = Unit
IsDistinct (t ∷ ts) = IsFresh t.ptr ts × IsDistinct ts

-- The middle of an ordered list lies above its lower end, and is ordered.
IsOrdered-middle :
    (lo : ℕ) (xs : List Node) (t : Node) (ys : List Node)
    → IsOrdered lo (xs ++ (t ∷ ys))
    → (lo ≤ t.start) × (t.start < t.end) × IsOrdered t.end ys × IsOrdered lo xs
IsOrdered-middle lo [] t ys o = (o.0, o.1, o.2, tt)
IsOrdered-middle lo (x ∷ xs) t ys o =
    let m = IsOrdered-middle x.end xs t ys o.2 in (omega arith, m.1, m.2, (o.0, o.1, m.3))

module _ (vma : Node) where
  -- the place in address order
  abbrev pub insert_sorted : List Node → List Node
  insert_sorted [] = vma ∷ []
  insert_sorted (t ∷ ts) = if leb t.end vma.start then t ∷ insert_sorted ts else vma ∷ t ∷ ts

  -- the last node that ends before the new one begins, in an ordered list
  last_before : List Node → Option Node → Option Node
  last_before [] d = d
  last_before (t ∷ ts) d =
      let rest = last_before ts (some t) in if leb t.end vma.start then rest else d

  -- Behind a node that ends before the new one begins.
  insert_sorted-append_past :
      (lo : ℕ) (xs : List Node) (t : Node) (ys : List Node)
      → IsOrdered lo (xs ++ (t ∷ ys))
      → t.end ≤ vma.start
      → insert_sorted (xs ++ (t ∷ ys)) ≡ xs ++ (t ∷ insert_sorted ys)
  insert_sorted-append_past lo [] t ys o h = ground arith
  insert_sorted-append_past lo (x ∷ xs) t ys o h =
      ground (arith, IsOrdered-middle x.end xs t ys, insert_sorted-append_past x.end xs t ys)

  insert_sorted-append_before :
      (xs : List Node) (t : Node) (ys : List Node)
      → vma.start < t.end
      → insert_sorted (xs ++ (t ∷ ys)) ≡ insert_sorted xs ++ (t ∷ ys)
  insert_sorted-append_before [] t ys h = ground arith
  insert_sorted-append_before (x ∷ xs) t ys h =
      ground (arith, insert_sorted-append_before xs t ys h)

  last_before-append_past :
      (lo : ℕ) (xs : List Node) (t : Node) (ys : List Node) (d : Option Node)
      → IsOrdered lo (xs ++ (t ∷ ys))
      → t.end ≤ vma.start
      → last_before (xs ++ (t ∷ ys)) d ≡ last_before ys (some t)
  unfolding last_before
  last_before-append_past lo [] t ys d o h = ground arith
  last_before-append_past lo (x ∷ xs) t ys d o h =
      ground (arith, IsOrdered-middle x.end xs t ys, last_before-append_past x.end xs t ys (some x))

  last_before-append_before :
      (xs : List Node) (t : Node) (ys : List Node) (d : Option Node)
      → vma.start < t.end
      → last_before (xs ++ (t ∷ ys)) d ≡ last_before xs d
  unfolding last_before
  last_before-append_before [] t ys d h = ground arith
  last_before-append_before (x ∷ xs) t ys d h =
      ground (arith, last_before-append_before xs t ys (some x) h)

  -- `__rb_insert_node` puts the area at its place.
  pub inorder-insert_node :
      (lo : ℕ) (tr : Tree)
      → IsOrdered lo (inorder tr)
      → inorder (insert_node vma tr) ≡ insert_sorted (inorder tr)
  unfolding insert_node
  inorder-insert_node lo nil o = refl
  inorder-insert_node lo (fork l t r) o =
      let m = IsOrdered-middle lo (inorder l) t (inorder r) o in
      ground (
        arith,
        inorder-insert_node lo l m.3,
        inorder-insert_node t.end r m.2,
        insert_sorted-append_past lo (inorder l) t (inorder r) o,
        insert_sorted-append_before (inorder l) t (inorder r),
      )

  -- `rb_pre` is the last area before the new one.
  link-pre :
      (lo : ℕ) (tr : Tree) (pre parent : Option Node)
      → IsOrdered lo (inorder tr)
      → (link vma tr pre parent).0 ≡ last_before (inorder tr) pre
  unfolding link
  link-pre lo nil pre parent o = unfold last_before in refl
  link-pre lo (fork l t r) pre parent o =
      let m = IsOrdered-middle lo (inorder l) t (inorder r) o in
      ground (
        arith,
        link-pre lo l pre (some t) m.3,
        link-pre t.end r (some t) (some t) m.2,
        last_before-append_past lo (inorder l) t (inorder r) pre o,
        last_before-append_before (inorder l) t (inorder r) pre,
      )

  abbrev head_or : List Node → Option Node → Option Node
  head_or [] d = d
  head_or (t ∷ ts) d = some t

  head_or-append :
      (xs : List Node) (t : Node) (ys : List Node) (d : Option Node)
      → head_or (xs ++ (t ∷ ys)) d ≡ head_or xs (some t)
  head_or-append [] t ys d = refl
  head_or-append (x ∷ xs) t ys d = refl

  last_before-some : (ts : List Node) (t : Node) → last_before ts (some t) ≢ none
  unfolding last_before
  last_before-some [] t e = cc
  last_before-some (u ∷ us) t e = ground (arith, last_before-some us u)

  -- Where there is no `rb_pre`, `rb_parent` is the first area.
  link-parent :
      (lo : ℕ) (tr : Tree) (parent : Option Node)
      → IsOrdered lo (inorder tr)
      → (link vma tr none parent).0 ≡ none
      → (link vma tr none parent).1 ≡ head_or (inorder tr) parent
  unfolding link
  link-parent lo nil parent o e = refl
  link-parent lo (fork l t r) parent o e =
      let m = IsOrdered-middle lo (inorder l) t (inorder r) o in
      ground (
        arith,
        link-parent lo l (some t) m.3,
        link-pre t.end r (some t) (some t) m.2,
        last_before-some (inorder r) t,
        head_or-append (inorder l) t (inorder r) parent,
      )

  last_before-fresh :
      (p : ℕ) (ts : List Node) (t u : Node)
      → IsFresh p (t ∷ ts)
      → last_before ts (some t) ≡ some u
      → u.ptr ≢ p
  unfolding last_before
  last_before-fresh p [] t u f e = ground arith
  last_before-fresh p (x ∷ xs) t u f e = ground (arith, last_before-fresh p xs x u f.1)

  -- Behind `rb_pre` is the place in address order.
  insert_after-last_before :
      (ts : List Node) (t u : Node)
      → IsDistinct (t ∷ ts)
      → last_before ts (some t) ≡ some u
      → insert_after u.ptr vma (t ∷ ts) ≡ t ∷ insert_sorted ts
  unfolding last_before insert_after
  insert_after-last_before [] t u f e = ground arith
  insert_after-last_before (x ∷ xs) t u f e =
      ground (arith, insert_after-last_before xs x u f.1, last_before-fresh t.ptr xs x u f.0)

  insert_list-at :
      (ts : List Node) (pre parent : Option Node)
      → IsDistinct ts
      → pre ≡ last_before ts none
      → (pre ≡ none → parent ≡ head_or ts none)
      → insert_list vma pre parent ts ≡ insert_sorted ts
  unfolding insert_list last_before chain_from
  insert_list-at [] none none d e f = refl
  insert_list-at [] none (some q) d e f = refl
  insert_list-at [] (some u) parent d e f = cc
  insert_list-at (t ∷ ts) none parent d e f = rw (f refl) (ground (arith, last_before-some ts t))
  insert_list-at (t ∷ ts) (some u) parent d e f = ground (arith, insert_after-last_before ts t u d)

  -- `__rb_insert_list`, handed the two nodes that the descent met, puts the area where the descent
  -- puts it: the chain stays the in-order walk of the tree.
  pub insert_list-inorder :
      (lo : ℕ) (tr : Tree)
      → IsOrdered lo (inorder tr)
      → IsDistinct (inorder tr)
      → insert_list vma (link vma tr none none).0 (link vma tr none none).1 (inorder tr)
        ≡ inorder (insert_node vma tr)
  insert_list-inorder lo tr o d =
      insert_list-at (inorder tr) _ _ d (link-pre lo tr none none o) (link-parent lo tr none o)
      ∙ sym (inorder-insert_node lo tr o)
