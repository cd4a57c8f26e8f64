-- ===== src/NodeList.antt =====
-- list/node.h: a singly linked list of nodes that point to their data. A list of nodes stands for the
-- chain from `*head` on, and a node for the address of its data with the value stored there. A value
-- is the 32-bit pattern of an `int`: `v` stands for `v - 2 ^ 32` from 2 ^ 31 on. A null `head` and the
-- printing are left out.
pub mod Find
pub mod Sorted
pub mod Reverse
mod Tests
use linux_cpp.Prelude.{
  ℕ, zero, suc, Option, none, some, List, [], ◌∷◌, ◌++◌, ◌+◌, ◌-◌, ◌==◌, ltb, if◌then◌else◌,
}
use Prim.Native.Nat.{◌%◌, Ordering}

pub record Node : Type 0 where
  pub data_at : ℕ
  pub val : ℕ

-- `create_node( __val )`, with the address that `malloc` returns for the data
abbrev pub create_node : ℕ → ℕ → Node
create_node address v = record { data_at = address; val = v }

-- `create_node( __node )`: the new node points to the same data.
abbrev pub copy_of : Node → Node
copy_of n = record { data_at = n.data_at; val = n.val }

-- `free_node`: the addresses of the data that it frees, in order
pub free_node : List Node → List ℕ
free_node [] = []
free_node (n ∷ ns) = n.data_at ∷ free_node ns

-- `remove_node`: the list that is left, and the addresses of the data freed
pub remove_node : ℕ → List Node → List Node × List ℕ
remove_node v [] = ([], [])
remove_node v (n ∷ ns) =
    let rest = remove_node v ns in
    if n.val == v then (rest.0, n.data_at ∷ rest.1) else (n ∷ rest.0, rest.1)

-- `find_node`: the node that `__find_node` stops at, `none` at the end
pub find_node : ℕ → List Node → Option Node
find_node v [] = none
find_node v (n ∷ ns) = if n.val == v then some n else find_node v ns

pub find_tail : List Node → Option Node
find_tail [] = none
find_tail (n ∷ []) = some n
find_tail (n ∷ m ∷ ns) = find_tail (m ∷ ns)

pub node_size : List Node → ℕ
node_size [] = 0
node_size (n ∷ ns) = suc (node_size ns)

-- `insert_node( __val, head )`: the place that `__find_node` stops at is the node found, or the end.
pub insert_node : ℕ → ℕ → List Node → List Node
insert_node address v [] = create_node address v ∷ []
insert_node address v (n ∷ ns) = if n.val == v then n ∷ ns else n ∷ insert_node address v ns

-- the subtraction of two ints; a difference that does not fit, which is undefined in C++, wraps.
abbrev pub int_sub : ℕ → ℕ → ℕ
int_sub v w = (v + 4294967296 - w) % 4294967296

-- how an int compares with 0
abbrev pub int_sign : ℕ → Ordering
int_sign w = if w == 0 then Ordering.eq else if ltb w 2147483648 then Ordering.gt else Ordering.lt

-- the sign of what the function returns: its callers test nothing else.
abbrev pub node_less : Node → Node → Ordering
node_less n m = int_sign (int_sub n.val m.val)

abbrev pub node_greater : Node → Node → Ordering
node_greater n m = int_sign (int_sub m.val n.val)

-- `insert_node( head, __node, fn )`; a null `fn` is `none`.
pub insert_by : Option (Node → Node → Ordering) → List Node → Node → List Node
insert_by fn [] n = copy_of n ∷ []
insert_by none (m ∷ ms) n = m ∷ insert_by none ms n
insert_by (some comp) (m ∷ ms) n = elim (comp m n) [
  | Ordering.eq ↦ record m { data_at = n.data_at; val = n.val } ∷ ms
  | Ordering.lt ↦ m ∷ insert_by (some comp) ms n
  | Ordering.gt ↦ copy_of n ∷ m ∷ ms
]

-- the loop of `reverse_node`, with the chain at `*p` and the one at `next`
pub reverse_loop : List Node → List Node → List Node
reverse_loop [] next = next
reverse_loop (n ∷ back_up) next = reverse_loop back_up (n ∷ next)

pub reverse_node : List Node → List Node
reverse_node ns = reverse_loop ns []

-- `copy_node( tar, src, fn )`
pub copy_node : Option (Node → Node → Ordering) → List Node → List Node → List Node
copy_node fn tar [] = tar
copy_node fn tar (n ∷ ns) = copy_node fn (insert_by fn tar n) ns
