-- ===== src/DNode/Tests.antt =====
-- Runs of list/dnode.h, and the theorems at a concrete list.
use linux_cpp.Prelude.{◌≡◌, refl, List, [], ◌∷◌, none, some}
use linux_cpp.DNode.{
  Node, null_access, remove_loop, remove_node, find_node, find_tail, insert_loop, insert_node,
  reverse_node,
}
use linux_cpp.DNode.Remove.{RemovesAll, remove_node-RemovesAll}
use linux_cpp.DNode.Reverse.{IsLinked, cells, reversed, reverse_node-IsLinked}

-- three calls of `insert_node`: no node points back
abbrev three : List Node
three =
    record { address = 64; val = 1; pre = none }
    ∷ record { address = 96; val = 2; pre = none }
    ∷ record { address = 128; val = 3; pre = none }
    ∷ []

inserted : insert_node 128 3 (insert_node 96 2 (insert_node 64 1 [])) ≡ three
unfolding insert_node insert_loop
inserted = refl

last_removed : remove_node 3 three ≡ null_access
unfolding remove_node remove_loop
last_removed = refl

found_there : find_node 3 three ≡ record { address = 128; val = 3; pre = none } ∷ []
unfolding find_node
found_there = refl

tail_there : find_tail three ≡ some (record { address = 128; val = 3; pre = none })
unfolding find_tail
tail_there = refl

reverse_node-IsLinked_example :
    (cells (reverse_node three) ≡ reversed (cells three)) × IsLinked none (reverse_node three)
reverse_node-IsLinked_example = reverse_node-IsLinked three

remove_node-RemovesAll_example : RemovesAll 2 three (remove_node 2 three)
remove_node-RemovesAll_example = remove_node-RemovesAll 2 three
