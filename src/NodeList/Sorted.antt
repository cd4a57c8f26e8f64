-- ===== src/NodeList/Sorted.antt =====
-- `insert_node( head, __node, node_less )` of list/node.h keeps a list in order.
use linux_cpp.Prelude.{
  ℕ, suc, ◌≤◌, ◌<◌, ◌≡◌, ◌⊎◌, refl, inl, inr, false, some, List, [], ◌∷◌, ◌==◌, if◌then◌else◌,
  Bool-cases, ==→eq, ==→ne, arith,
}
use Prim.Native.Nat.{Ordering}
use linux_cpp.NodeList.{Node, copy_of, node_less, insert_by, find_node}

-- The values go up, from `low` on.
abbrev pub GoesUp : ℕ → List Node → Type 0
GoesUp low [] = 0 ≤ 0
GoesUp low (n ∷ ns) = (low ≤ n.val) × GoesUp (suc n.val) ns

-- The value of the node is that of an int that is not negative.
abbrev pub IsNatural : Node → Type 0
IsNatural n = n.val < 2147483648

abbrev pub AreNatural : List Node → Type 0
AreNatural [] = 0 ≤ 0
AreNatural (n ∷ ns) = IsNatural n × AreNatural ns

-- Differences of such values do not overflow.
node_less-cases :
    (m n : Node)
    → IsNatural m
    → IsNatural n
    → ((node_less m n ≡ Ordering.lt) × (m.val < n.val))
      ⊎ ((node_less m n ≡ Ordering.eq) × (m.val ≡ n.val))
      ⊎ ((node_less m n ≡ Ordering.gt) × (n.val < m.val))
node_less-cases m n f g = ground arith

insert_lt :
    (m : Node) (ms : List Node) (n : Node)
    → node_less m n ≡ Ordering.lt
    → insert_by (some node_less) (m ∷ ms) n ≡ m ∷ insert_by (some node_less) ms n
unfolding insert_by
insert_lt m ms n e = rw (insert_by, e) refl

insert_eq :
    (m : Node) (ms : List Node) (n : Node)
    → node_less m n ≡ Ordering.eq
    → insert_by (some node_less) (m ∷ ms) n ≡ copy_of n ∷ ms
unfolding insert_by
insert_eq m ms n e = rw (insert_by, e) refl

insert_gt :
    (m : Node) (ms : List Node) (n : Node)
    → node_less m n ≡ Ordering.gt
    → insert_by (some node_less) (m ∷ ms) n ≡ copy_of n ∷ m ∷ ms
unfolding insert_by
insert_gt m ms n e = rw (insert_by, e) refl

insert_by-GoesUp :
    (low : ℕ) (ns : List Node) (n : Node)
    → AreNatural ns
    → IsNatural n
    → low ≤ n.val
    → GoesUp low ns
    → GoesUp low (insert_by (some node_less) ns n)
unfolding insert_by
insert_by-GoesUp low [] n fs g h s = (h, omega arith)
insert_by-GoesUp low (m ∷ ms) n (f, fs) g h (l, s) = elim (node_less-cases m n f g) [
  | inl (e, c) ↦ rw (insert_lt m ms n e) (l, insert_by-GoesUp (suc m.val) ms n fs g c s)
  | inr (inl (e, c)) ↦ rw (insert_eq m ms n e, ← c) (l, s)
  | inr (inr (e, c)) ↦ rw (insert_gt m ms n e) (h, (c, s))
]

insert_by-find_node :
    (ns : List Node) (n : Node)
    → AreNatural ns
    → IsNatural n
    → (w : ℕ)
    → find_node w (insert_by (some node_less) ns n)
      ≡ (if n.val == w then some (copy_of n) else find_node w ns)
unfolding insert_by find_node
insert_by-find_node [] n fs g w = refl
insert_by-find_node (m ∷ ms) n (f, fs) g w = elim (node_less-cases m n f g) [
  | inl (e, c) ↦ rw (insert_lt m ms n e) (elim (Bool-cases (m.val == w)) [
    | inl t ↦
        let other : (n.val == w) ≡ false = ground (arith, ==→eq m.val w t) in rw (t, other) refl
    | inr t ↦ rw t (insert_by-find_node ms n fs g w)
  ])
  | inr (inl (e, c)) ↦ rw (insert_eq m ms n e) (elim (Bool-cases (n.val == w)) [
    | inl t ↦ rw t refl
    | inr t ↦
        let other : (m.val == w) ≡ false = ground (arith, ==→ne n.val w t) in rw (t, other) refl
  ])
  | inr (inr (e, c)) ↦ rw (insert_gt m ms n e) refl
]

-- Where no value of the list and of the new node is negative, `insert_node` with `node_less` keeps a
-- list of rising values rising; a search for the value of the new node finds its copy afterwards, and
-- every other search what it found before.
pub insert_by_correct :
    (ns : List Node) (n : Node)
    → AreNatural ns
    → IsNatural n
    → GoesUp 0 ns
    → GoesUp 0 (insert_by (some node_less) ns n)
      × ((w : ℕ)
          → find_node w (insert_by (some node_less) ns n)
            ≡ (if n.val == w then some (copy_of n) else find_node w ns))
insert_by_correct ns n fs g s =
    (insert_by-GoesUp 0 ns n fs g (omega arith) s, insert_by-find_node ns n fs g)
