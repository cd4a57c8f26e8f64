-- ===== src/DNode.antt =====
-- list/dnode.h: a list whose nodes also have a pointer back. A node carries its address; `next` is the
-- node that follows in the list, and `pre` an address or null. A `node**` into the list is a place in it.
pub mod Remove
pub mod Reverse
mod Tests
use linux_cpp.Prelude.{
  ℕ, List, [], ◌∷◌, ◌++◌, Bool, true, false, Option, none, some, ◌==◌, if◌then◌else◌,
}

pub record Node : Type 0 where
  pub address : ℕ
  pub val : ℕ
  pub pre : Option ℕ

-- the list after a call, or an access through a null pointer
pub data Result : Type 0 where
  done : List Node → Result
  null_access : Result

abbrev pub keep : Node → Result → Result
keep n (done ns) = done (n ∷ ns)
keep n null_access = null_access

-- `entry->next->pre = *p`, where `*p` is `entry->next` already
abbrev pub back_to_self : Node → Node
back_to_self n = record n { pre = some n.address }

-- The loop of `remove_node`. `after` tells that the node in front has just been removed, so that the
-- `pre` of this one is written.
pub remove_loop : ℕ → Bool → List Node → Result
remove_loop v after [] = if after then null_access else done []
remove_loop v after (n ∷ ns) =
    let rest = remove_loop v (n.val == v) ns in
    if n.val == v then rest else keep (if after then back_to_self n else n) rest

pub remove_node : ℕ → List Node → Result
remove_node v ns = remove_loop v false ns

-- `find_node`: the rest of the list from the node on
pub find_node : ℕ → List Node → List Node
find_node v [] = []
find_node v (n ∷ ns) = if n.val == v then n ∷ ns else find_node v ns

pub find_tail : List Node → Option Node
find_tail [] = none
find_tail (n ∷ []) = some n
find_tail (n ∷ m ∷ ns) = find_tail (m ∷ ns)

-- The new node, at the address that `new` returns, goes where the search has ended: behind the last
-- node, where `*p` is null.
pub insert_loop : ℕ → ℕ → List Node → List Node
insert_loop address v [] = record { address = address; val = v; pre = none } ∷ []
insert_loop address v (n ∷ ns) =
    let rest = insert_loop address v ns in if n.val == v then n ∷ ns else n ∷ rest

pub insert_node : ℕ → ℕ → List Node → List Node
insert_node address v ns = insert_loop address v ns

abbrev pub head_address : List Node → Option ℕ
head_address [] = none
head_address (n ∷ ns) = some n.address

-- the loop of `reverse_node`; `next` is the list of the nodes that have been turned around
pub reverse_loop : List Node → List Node → List Node
reverse_loop [] next = next
reverse_loop (n ∷ ns) next = reverse_loop ns (record n { pre = head_address ns } ∷ next)

pub reverse_node : List Node → List Node
reverse_node ns = reverse_loop ns []
