-- ===== src/NodeList/Find.antt =====
-- Searching, inserting and removing by value in list/node.h.
use linux_cpp.Prelude.{
  ℕ, ◌+◌, ◌≡◌, ◌≢◌, refl, sym, ◌∙◌, inl, inr, true, false, Option, none, some, List, [], ◌∷◌,
  length, ◌==◌, if◌then◌else◌, Bool-cases, ==→eq, ==→ne, eq→==, ne→==, arith,
}
use linux_cpp.NodeList.{Node, create_node, find_node, insert_node, remove_node, node_size}

-- what `find_node` finds after the nodes with the value `v` are gone
abbrev pub forget : ℕ → ℕ → Option Node → Option Node
forget w v o = if w == v then none else o

forget_head :
    (w v : ℕ) (n : Node) (o : Option Node)
    → n.val ≡ v
    → forget w v o ≡ forget w v (if n.val == w then some n else o)
forget_head w v n o e = elim (Bool-cases (w == v)) [
  | inl c ↦ rw c refl
  | inr c ↦ let other : (n.val == w) ≡ false = ground (arith, ==→ne w v c) in rw (c, other) refl
]

keep_head :
    (w v : ℕ) (n : Node) (o o' : Option Node)
    → o ≡ forget w v o'
    → n.val ≢ v
    → (if n.val == w then some n else o) ≡ forget w v (if n.val == w then some n else o')
keep_head w v n o o' h e = elim (Bool-cases (n.val == w)) [
  | inl c ↦ let other : (w == v) ≡ false = ground (arith, ==→eq n.val w c) in rw (c, other) refl
  | inr c ↦ rw c h
]

-- After `remove_node( v, head )` no node with the value `v` is found, every search for another value
-- finds what it found before, and one block of data is freed for each node that left the list.
pub find_node-remove_node :
    (w v : ℕ) (ns : List Node)
    → (find_node w (remove_node v ns).0 ≡ forget w v (find_node w ns))
      × (node_size (remove_node v ns).0 + length (remove_node v ns).1 ≡ node_size ns)
unfolding find_node remove_node node_size
find_node-remove_node w v [] = (forget_none, omega arith)
  where
    forget_none : none ≡ forget w v none
    forget_none = elim (Bool-cases (w == v)) [ inl e ↦ rw e refl | inr e ↦ rw e refl ]
find_node-remove_node w v (n ∷ ns) =
    let (found, size) = find_node-remove_node w v ns in
    elim (Bool-cases (n.val == v)) [
      | inl e ↦ rw e (found ∙ forget_head w v n (find_node w ns) (==→eq n.val v e), omega arith)
      | inr e ↦ rw e (
        keep_head w v n (find_node w (remove_node v ns).0) (find_node w ns) found (==→ne n.val v e),
        omega arith,
      )
    ]

abbrev pub or_else : Option Node → Node → Option Node
or_else none n = some n
or_else (some m) n = some m

present :
    (w v : ℕ) (n m : Node) (o : Option Node)
    → n.val ≡ v
    → (if n.val == w then some n else o)
      ≡ (if w == v then or_else (some n) m else if n.val == w then some n else o)
present w v n m o e = elim (Bool-cases (w == v)) [
  | inl c ↦ let same : (n.val == w) ≡ true = ground (arith, ==→eq w v c) in rw (c, same) refl
  | inr c ↦ rw c refl
]

absent :
    (w v : ℕ) (n : Node) (o new old : Option Node)
    → o ≡ (if w == v then new else old)
    → n.val ≢ v
    → (if n.val == w then some n else o)
      ≡ (if w == v then new else if n.val == w then some n else old)
absent w v n o new old h e = elim (Bool-cases (n.val == w)) [
  | inl c ↦ let other : (w == v) ≡ false = ground (arith, ==→eq n.val w c) in rw (c, other) refl
  | inr c ↦ rw c h
]

-- After `insert_node( v, head )` a search for `v` finds the node that was there, or else the new one,
-- and every other search finds what it found before.
pub find_node-insert_node :
    (w v address : ℕ) (ns : List Node)
    → find_node w (insert_node address v ns)
      ≡ (if w == v then or_else (find_node v ns) (create_node address v) else find_node w ns)
unfolding find_node insert_node
find_node-insert_node w v address [] = elim (Bool-cases (w == v)) [
  | inl c ↦ rw (c, eq→== v w (sym (==→eq w v c))) refl
  | inr c ↦ rw (c, ne→== v w (λ q. ==→ne w v c (sym q))) refl
]
find_node-insert_node w v address (n ∷ ns) = elim (Bool-cases (n.val == v)) [
  | inl e ↦ rw e (present w v n (create_node address v) (find_node w ns) (==→eq n.val v e))
  | inr e ↦ rw e (
      absent w v n (find_node w (insert_node address v ns))
        (or_else (find_node v ns) (create_node address v)) (find_node w ns)
        (find_node-insert_node w v address ns) (==→ne n.val v e))
]
