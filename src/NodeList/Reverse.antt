-- ===== src/NodeList/Reverse.antt =====
-- `reverse_node`, `free_node` and `copy_node` of list/node.h.
use linux_cpp.Prelude.{◌≡◌, refl, sym, ap, ◌∙◌, none, List, [], ◌∷◌, ◌++◌, append-nil, append_assoc}
use linux_cpp.NodeList.{Node, reverse_loop, reverse_node, insert_by, copy_node, free_node}

loop-append :
    (ns ms acc : List Node) → reverse_loop (ns ++ ms) acc ≡ reverse_loop ms (reverse_loop ns acc)
unfolding reverse_loop
loop-append [] ms acc = refl
loop-append (n ∷ ns) ms acc = loop-append ns ms (n ∷ acc)

loop_acc : (ns acc : List Node) → reverse_loop ns acc ≡ reverse_loop ns [] ++ acc
unfolding reverse_loop
loop_acc [] acc = refl
loop_acc (n ∷ ns) acc =
    loop_acc ns (n ∷ acc)
    ∙ sym (append_assoc (reverse_loop ns []) (n ∷ []) acc)
    ∙ ap (λ t. t ++ acc) (sym (loop_acc ns (n ∷ [])))

reverse-append : (ns ms : List Node) → reverse_node (ns ++ ms) ≡ reverse_node ms ++ reverse_node ns
unfolding reverse_node
reverse-append ns ms = loop-append ns ms [] ∙ loop_acc ms (reverse_loop ns [])

reverse_twice : (ns : List Node) → reverse_node (reverse_node ns) ≡ ns
unfolding reverse_node reverse_loop
reverse_twice [] = refl
reverse_twice (n ∷ ns) =
    ap reverse_node (loop_acc ns (n ∷ []))
    ∙ reverse-append (reverse_node ns) (n ∷ [])
    ∙ ap (λ t. n ∷ t) (reverse_twice ns)

-- `reverse_node` puts the last node first: reversed once, two chains come in the other order with
-- each of them reversed, and reversed twice, a list is as it was.
pub reverse_node_correct :
    (ns ms : List Node)
    → (reverse_node (ns ++ ms) ≡ reverse_node ms ++ reverse_node ns)
      × (reverse_node (reverse_node ns) ≡ ns)
reverse_node_correct ns ms = (reverse-append ns ms, reverse_twice ns)

insert_by-append : (ns : List Node) (n : Node) → insert_by none ns n ≡ ns ++ n ∷ []
unfolding insert_by
insert_by-append [] n = refl
insert_by-append (m ∷ ns) n = ap (λ t. m ∷ t) (insert_by-append ns n)

copy_node-append : (tar ns : List Node) → copy_node none tar ns ≡ tar ++ ns
unfolding copy_node
copy_node-append tar [] = sym (append-nil tar)
copy_node-append tar (n ∷ ns) =
    copy_node-append (insert_by none tar n) ns
    ∙ ap (λ t. t ++ ns) (insert_by-append tar n)
    ∙ append_assoc tar (n ∷ []) ns

-- Without a comparison `copy_node` appends the source to the target, and the copies point to the
-- source's data: when the copy of a list is freed, `free_node` frees the same blocks of data as for
-- the list itself.
pub copy_node-free_node :
    (tar ns : List Node)
    → (copy_node none tar ns ≡ tar ++ ns) × (free_node (copy_node none [] ns) ≡ free_node ns)
copy_node-free_node tar ns = (copy_node-append tar ns, ap free_node (copy_node-append [] ns))
