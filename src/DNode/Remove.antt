-- ===== src/DNode/Remove.antt =====
-- `remove_node` of list/dnode.h on every list.
use linux_cpp.Prelude.{
  ℕ, ◌≡◌, ◌⊎◌, inl, inr, refl, ap, ◌∙◌, Bool, true, false, List, [], ◌∷◌, Option, none, some, ◌==◌,
  if◌then◌else◌, if_elim, Bool-cases,
}
use linux_cpp.DNode.{
  Node, Result, done, null_access, keep, back_to_self, remove_loop, remove_node, find_tail,
}
use linux_cpp.DNode.Reverse.{cells}

-- The nodes that are left: a node behind a removed one points back to itself.
survivors : ℕ → Bool → List Node → List Node
survivors v after [] = []
survivors v after (n ∷ ns) =
    let rest = survivors v (n.val == v) ns in
    if n.val == v then rest else (if after then back_to_self n else n) ∷ rest

-- whether the last node, or the one in front of an empty list, has the value
abbrev last_has : ℕ → Bool → List Node → Bool
last_has v before [] = before
last_has v before (n ∷ ns) = last_has v (n.val == v) ns

loop-survivors :
    (v : ℕ) (after : Bool) (ns : List Node)
    → remove_loop v after ns
      ≡ (if last_has v after ns then null_access else done (survivors v after ns))
unfolding remove_loop survivors
loop-survivors v after [] = refl
loop-survivors v after (n ∷ ns) = elim (Bool-cases (n.val == v)) [
  | inl e ↦ rw e (loop-survivors v true ns)
  | inr e ↦ rw e (
      ap (keep (if after then back_to_self n else n)) (loop-survivors v false ns)
      ∙ kept (last_has v false ns) (if after then back_to_self n else n) (survivors v false ns))
]
  where
    kept :
        (b : Bool) (m : Node) (ms : List Node)
        → keep m (if b then null_access else done ms) ≡ (if b then null_access else done (m ∷ ms))
    kept true m ms = refl
    kept false m ms = refl

-- whether the node at the end, if any, has the value
abbrev pub tail_has : ℕ → Option Node → Bool
tail_has v none = false
tail_has v (some n) = n.val == v

last_has-find_tail :
    (v : ℕ) (before : Bool) (n : Node) (ns : List Node)
    → last_has v before (n ∷ ns) ≡ tail_has v (find_tail (n ∷ ns))
unfolding find_tail
last_has-find_tail v before n [] = refl
last_has-find_tail v before n (m ∷ ns) = last_has-find_tail v (n.val == v) m ns

-- the addresses and values of the nodes with another value
abbrev pub others : ℕ → List Node → List (ℕ × ℕ)
others v [] = []
others v (n ∷ ns) = let rest = others v ns in if n.val == v then rest else (n.address, n.val) ∷ rest

survivors-others :
    (v : ℕ) (after : Bool) (ns : List Node) → cells (survivors v after ns) ≡ others v ns
unfolding survivors
survivors-others v after [] = refl
survivors-others v after (n ∷ ns) = elim (Bool-cases (n.val == v)) [
  | inl e ↦ rw e (survivors-others v true ns)
  | inr e ↦
      rw e (with_node after ∙ ap (λ cs. (n.address, n.val) ∷ cs) (survivors-others v false ns))
]
  where
    with_node :
        (b : Bool)
        → cells ((if b then back_to_self n else n) ∷ survivors v false ns)
          ≡ (n.address, n.val) ∷ cells (survivors v false ns)
    with_node true = refl
    with_node false = refl

-- each node has its old pointer back or, behind a removed one, a pointer to itself
abbrev pub PointsBack : Node → List Node → Type 0
PointsBack n [] = ⊥
PointsBack n (m ∷ ms) = (n ≡ m) ⊎ (n ≡ back_to_self m) ⊎ PointsBack n ms

abbrev pub AllPointBack : List Node → List Node → Type 0
AllPointBack [] ms = Unit
AllPointBack (n ∷ ns) ms = PointsBack n ms × AllPointBack ns ms

one_more : (m : Node) (ns ms : List Node) → AllPointBack ns ms → AllPointBack ns (m ∷ ms)
one_more m [] ms h = tt
one_more m (n ∷ ns) ms (p, h) = (inr (inr p), one_more m ns ms h)

survivors-AllPointBack :
    (v : ℕ) (after : Bool) (ns : List Node) → AllPointBack (survivors v after ns) ns
unfolding survivors
survivors-AllPointBack v after [] = tt
survivors-AllPointBack v after (n ∷ ns) = elim (Bool-cases (n.val == v)) [
  | inl e ↦ rw e (one_more n (survivors v true ns) ns (survivors-AllPointBack v true ns))
  | inr e ↦
      rw e
        (this_node after, one_more n (survivors v false ns) ns (survivors-AllPointBack v false ns))
]
  where
    this_node : (b : Bool) → PointsBack (if b then back_to_self n else n) (n ∷ ns)
    this_node true = inr (inl refl)
    this_node false = inl refl

-- what `remove_node` owes
abbrev pub RemovesAll : ℕ → List Node → Result → Type 0
RemovesAll v ns (done ns') =
    (tail_has v (find_tail ns) ≡ false) × (cells ns' ≡ others v ns) × AllPointBack ns' ns
RemovesAll v ns null_access = tail_has v (find_tail ns) ≡ true

-- `remove_node` writes through a null pointer exactly when the last node has the value. Otherwise it
-- leaves exactly the nodes with another value, in their order, each with its old pointer back or with
-- one to itself.
pub remove_node-RemovesAll : (v : ℕ) (ns : List Node) → RemovesAll v ns (remove_node v ns)
unfolding remove_node remove_loop find_tail
remove_node-RemovesAll v [] = (refl, refl, tt)
remove_node-RemovesAll v (n ∷ ns) =
    rw (loop-survivors v false (n ∷ ns), last_has-find_tail v false n ns)
      (if_elim (RemovesAll v (n ∷ ns)) (tail_has v (find_tail (n ∷ ns))) null_access
        (done (survivors v false (n ∷ ns))) (λ e. e)
        (λ e. (e, survivors-others v false (n ∷ ns), survivors-AllPointBack v false (n ∷ ns))))
