-- ===== src/NodeList/Tests.antt =====
-- Runs of list/node.h, and its theorems at concrete lists.
use linux_cpp.Prelude.{ℕ, ◌≡◌, refl, some, List, [], ◌∷◌, ◌==◌, if◌then◌else◌, arith}
use Prim.Native.Nat.{Ordering}
use linux_cpp.NodeList.{
  Node, create_node, copy_of, remove_node, find_node, find_tail, node_size, node_less, node_greater,
  insert_by, reverse_loop, reverse_node, copy_node,
}
use linux_cpp.NodeList.Sorted.{GoesUp, insert_by_correct}

abbrev three : List Node
three = create_node 16 1 ∷ create_node 32 4 ∷ create_node 48 9 ∷ []

abbrev five : Node
five = create_node 64 5

remove_node_test : remove_node 4 three ≡ (create_node 16 1 ∷ create_node 48 9 ∷ [], 32 ∷ [])
unfolding remove_node
remove_node_test = refl

insert_by_test :
    insert_by (some node_less) three five
    ≡ create_node 16 1 ∷ create_node 32 4 ∷ five ∷ create_node 48 9 ∷ []
unfolding insert_by
insert_by_test = refl

copy_node_test : copy_node (some node_greater) [] three ≡ reverse_node three
unfolding copy_node insert_by reverse_node reverse_loop
copy_node_test = refl

-- 2 ^ 31 - 1 comes before - 1: the difference does not fit into an int.
node_less_test : node_less (create_node 16 2147483647) (create_node 32 4294967295) ≡ Ordering.lt
node_less_test = refl

find_tail_test : (find_tail three ≡ some (create_node 48 9)) × (node_size three ≡ 3)
unfolding find_tail node_size
find_tail_test = (refl, refl)

insert_by_correct_example :
    GoesUp 0 (insert_by (some node_less) three five)
    × ((w : ℕ)
        → find_node w (insert_by (some node_less) three five)
          ≡ (if five.val == w then some (copy_of five) else find_node w three))
insert_by_correct_example =
    insert_by_correct three five (omega arith, (omega arith, (omega arith, omega arith)))
      (omega arith) (omega arith, (omega arith, (omega arith, omega arith)))
