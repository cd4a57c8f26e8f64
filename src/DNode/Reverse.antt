-- ===== src/DNode/Reverse.antt =====
-- `reverse_node` of list/dnode.h turns the list around and makes its pointers back right.
use linux_cpp.Prelude.{
  ℕ, ◌≡◌, refl, sym, ◌∙◌, List, [], ◌∷◌, ◌++◌, append-nil, append_assoc, Option, none, some,
}
use linux_cpp.DNode.{Node, head_address, reverse_loop, reverse_node}

-- each node's `pre` is the node in front of it, and that of the first is `front`
abbrev pub IsLinked : Option ℕ → List Node → Type 0
IsLinked front [] = Unit
IsLinked front (n ∷ ns) = (n.pre ≡ front) × IsLinked (some n.address) ns

-- the addresses and values of the nodes
abbrev pub cells : List Node → List (ℕ × ℕ)
cells [] = []
cells (n ∷ ns) = (n.address, n.val) ∷ cells ns

abbrev pub reversed : List (ℕ × ℕ) → List (ℕ × ℕ)
reversed [] = []
reversed (c ∷ cs) = reversed cs ++ (c ∷ [])

loop-IsLinked :
    (ns next : List Node) → IsLinked (head_address ns) next → IsLinked none (reverse_loop ns next)
unfolding reverse_loop
loop-IsLinked [] next h = h
loop-IsLinked (n ∷ ns) next h =
    loop-IsLinked ns (record n { pre = head_address ns } ∷ next) (refl, h)

loop-cells :
    (ns next : List Node) → cells (reverse_loop ns next) ≡ reversed (cells ns) ++ cells next
unfolding reverse_loop
loop-cells [] next = refl
loop-cells (n ∷ ns) next =
    loop-cells ns (record n { pre = head_address ns } ∷ next)
    ∙ sym (append_assoc (reversed (cells ns)) ((n.address, n.val) ∷ []) (cells next))

-- `reverse_node` leaves the same nodes in the opposite order, and whatever the pointers back were
-- before, each then points to the node in front, and the first is null.
pub reverse_node-IsLinked :
    (ns : List Node)
    → (cells (reverse_node ns) ≡ reversed (cells ns)) × IsLinked none (reverse_node ns)
unfolding reverse_node
reverse_node-IsLinked ns =
    (loop-cells ns [] ∙ append-nil (reversed (cells ns)), loop-IsLinked ns [] tt)
