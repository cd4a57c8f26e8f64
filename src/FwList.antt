-- ===== src/FwList.antt =====
-- list/fwlist.hpp: a singly linked list with its size. A list stands for the values of its nodes from
-- `begin()` on, and an iterator for the number of nodes up to it: 0 is `begin_before()`, and `end()`,
-- the null pointer, is `none`. A range that is inserted or assigned is one of another list. Where the
-- code reads through a null pointer the result is `none`. `_M_sz` does not pass 2 ^ 64.
pub mod Edits
pub mod Sizes
mod Tests
use linux_cpp.Prelude.{
  ℕ, zero, suc, ◌+◌, ◌-◌, Option, none, some, List, [], ◌∷◌, ◌++◌, length, take, drop, replicate,
  ltb, ◌==◌, if◌then◌else◌,
}

pub record FwList (A : Type 0) : Type 0 where
  pub nodes : List A
  pub sz : ℕ

module _ {A : Type 0} where
  -- `FWList()`
  abbrev pub empty : FwList A
  empty = record { nodes = []; sz = 0 }

  -- `_M_hook_after` of a new node at the node `pos`
  pub hook_after : List A → ℕ → A → List A
  hook_after nodes pos x = take pos nodes ++ (x ∷ drop pos nodes)

  -- `insert_after( pos, x )`: the list, and the iterator to the new node
  pub insert_after : ℕ → A → FwList A → FwList A × ℕ
  unfolding hook_after
  insert_after pos x l = (record { nodes = hook_after l.nodes pos x; sz = suc l.sz }, suc pos)

  -- `insert_after( pos, first, last )`: each round counts its element in `insert_after` and once more
  pub insert_range : ℕ → List A → FwList A → FwList A
  unfolding insert_after
  insert_range pos [] l = l
  insert_range pos (x ∷ xs) l =
      let r = insert_after pos x l in insert_range r.1 xs (record r.0 { sz = suc r.0.sz })

  -- `emplace( x )`: the loop goes on to the last node
  pub emplace : A → FwList A → FwList A
  unfolding insert_after
  emplace x l = (insert_after (length l.nodes) x l).0

  -- `FWList( n, x )`
  pub filled : ℕ → A → FwList A → FwList A
  unfolding emplace
  filled zero x l = l
  filled (suc n) x l = filled n x (emplace x l)

  -- `erase_after( pos )`
  pub erase_after : ℕ → FwList A → Option (FwList A)
  erase_after pos l =
      if ltb pos (length l.nodes)
      then some (record { nodes = take pos l.nodes ++ drop (suc pos) l.nodes; sz = l.sz - 1 })
      else none

  -- `erase_after( pos, end() )`, in at most `rounds` rounds; the first round is made in any case
  pub erase_after_until_end : ℕ → ℕ → FwList A → Option (FwList A)
  unfolding erase_after
  erase_after_until_end zero pos l = none
  erase_after_until_end (suc rounds) pos l = elim (erase_after pos l) [
    | none ↦ none
    | some m ↦
        let rest = erase_after_until_end rounds pos m in
        if ltb pos (length m.nodes) then rest else some m
  ]

  -- the common loop of both `assign`s: the list with the values overwritten, how many there are, and
  -- the rest of the range
  pub overwrite : List A → List A → List A × ℕ × List A
  overwrite [] xs = ([], 0, xs)
  overwrite (y ∷ ys) [] = (y ∷ ys, 0, [])
  overwrite (y ∷ ys) (x ∷ xs) = let r = overwrite ys xs in (x ∷ r.0, suc r.1, r.2)

  -- `assign( first, last )`
  pub assign : List A → FwList A → Option (FwList A)
  unfolding overwrite insert_range erase_after_until_end
  assign xs l =
      let r = overwrite l.nodes xs in
      let m : FwList A = record { nodes = r.0; sz = l.sz } in
      if r.1 == length l.nodes
      then some (insert_range r.1 r.2 m)
      else erase_after_until_end (length l.nodes) r.1 m

  -- the loop of `assign( n, x )` behind the last node
  pub append_copies : ℕ → ℕ → A → FwList A → FwList A
  unfolding insert_after
  append_copies pos zero x l = l
  append_copies pos (suc n) x l = let r = insert_after pos x l in append_copies r.1 n x r.0

  -- `assign( n, x )`, whose loop overwrites as that of the other `assign` does for `n` times `x`
  pub assign_copies : ℕ → A → FwList A → Option (FwList A)
  unfolding overwrite append_copies erase_after_until_end
  assign_copies n x l =
      let r = overwrite l.nodes (replicate n x) in
      let m : FwList A = record { nodes = r.0; sz = l.sz } in
      if r.1 == length l.nodes
      then some (append_copies r.1 (length r.2) x m)
      else erase_after_until_end (length l.nodes) r.1 m

  -- `clear`, whose loop frees the first node until there is none
  abbrev pub clear : FwList A → FwList A
  clear l = empty

  -- The loop of `_M_reverse`, at the node `cur` with the nodes behind it, of which `temp` is the first.
  -- A round ends with a read of `temp->_M_next`.
  pub reverse_loop : List A → A → List A → Option (List A)
  reverse_loop next cur [] = none
  reverse_loop next cur (temp ∷ rest) = reverse_loop (cur ∷ next) temp rest

  -- `reverse`, which reads `_M_next` of the first node before the loop
  pub reverse : FwList A → Option (List A)
  unfolding reverse_loop
  reverse l = elim l.nodes [ [] ↦ none | cur ∷ rest ↦ reverse_loop [] cur rest ]

-- the calls that change a list
pub data Call (A : Type 0) : Type 0 where
  insert_one : ℕ → A → Call A
  insert_many : ℕ → List A → Call A
  emplace_one : A → Call A
  erase_one : ℕ → Call A
  erase_rest : ℕ → Call A
  assign_many : List A → Call A
  assign_same : ℕ → A → Call A
  clear_all : Call A

module _ {A : Type 0} where
  pub call : Call A → FwList A → Option (FwList A)
  unfolding insert_after insert_range emplace erase_after erase_after_until_end assign assign_copies
  call (insert_one pos x) l = some (insert_after pos x l).0
  call (insert_many pos xs) l = some (insert_range pos xs l)
  call (emplace_one x) l = some (emplace x l)
  call (erase_one pos) l = erase_after pos l
  call (erase_rest pos) l = erase_after_until_end (length l.nodes) pos l
  call (assign_many xs) l = assign xs l
  call (assign_same n x) l = assign_copies n x l
  call clear_all l = some (clear l)
