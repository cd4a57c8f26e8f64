-- ===== src/Blocks/Disk/Fill.antt =====
-- `get_blocks` of filesystem-block-manager/test.cpp: the entry that it ends with has a block.
use linux_cpp.Prelude.{
  ℕ, suc, ◌+◌, ◌≤◌, ◌≡◌, ◌≢◌, refl, sym, ap, ◌∙◌, true, Option, none, some, ◌==◌, if_elim, ==→eq,
  ==→ne, arith,
}
use linux_cpp.Blocks.Disk.{
  State, super_block, Result, done, breaks, spins, bind, get_block, to_ulong, fill,
}
use linux_cpp.Blocks.Disk.Alloc.{view, Took, Grants, get_block-Grants}
use linux_cpp.Blocks.Disk.Slots.{Slot, direct, root, mid, leaf, IsSlot, value, Inv, Fresh, Assigned}
use linux_cpp.Blocks.Disk.Keep.{Took-value, Took-Inv, Took-Fresh}
use linux_cpp.Blocks.Disk.Assign.{Assigned-Inv, Assigned-kept}
use linux_cpp.Blocks.Disk.Room.{free_bits, room, free_bits-AllSet, free_bits-set_bit}

-- A call that returns ends as `P` says; one that meets an undefined access, as `Q` says; and no call
-- repeats for ever.
abbrev pub Ends : {A : Type 0} → (A → State → Type 0) → Type 0 → Result A → Type 0
Ends P Q (done a s) = P a s
Ends P Q breaks = Q
Ends P Q spins = ⊥

pub bind-Ends :
    {A B : Type 0} (P : A → State → Type 0) (Q : Type 0) (P' : B → State → Type 0) (Q' : Type 0)
    (r : Result A) (k : A → State → Result B)
    → Ends P Q r
    → ((a : A) (s : State) → P a s → Ends P' Q' (k a s))
    → (Q → Q')
    → Ends P' Q' (bind r k)
bind-Ends P Q P' Q' (done a s) k h f g = f a s h
bind-Ends P Q P' Q' breaks k h f g = g h
bind-Ends P Q P' Q' spins k h f g = h

-- entry `t` has the block `b` in the state `s'` after `s`; every entry that had one has kept it
pub record Filled (s : State) (t : Slot) (cost b : ℕ) (s' : State) : Type 0 where
  pub inv : Inv s'
  pub there : value s' t ≡ b
  pub some_block : b ≢ 0
  pub kept : (u : Slot) → IsSlot u → value s u ≢ 0 → value s' u ≡ value s u
  pub less : room s ≤ cost + room s'
  pub keeps : (c : ℕ) → s.uptodate c ≡ true → s'.uptodate c ≡ true

Took-room : (s s' : State) (n : ℕ) → Took s s' n → room s ≤ suc (room s')
unfolding room
Took-room s s' n k = rw k.bitmap (free_bits-set_bit 170 22 n (view s 2))

Assigned-room : (s s' : State) (t : Slot) (n : ℕ) → Assigned s s' t n → room s' ≡ room s
unfolding room
Assigned-room s s' t n a = ap (free_bits 170 22) a.bitmap

same_slot_self : (s s' : State) (t : Slot) (n : ℕ) → IsSlot t → Assigned s s' t n → value s' t ≡ n
same_slot_self s s' (direct i) n l a = a.values (direct i) l ∙ ground arith
same_slot_self s s' root n l a = a.values root l
same_slot_self s s' (mid j) n l a = a.values (mid j) l ∙ ground arith
same_slot_self s s' (leaf j k) n l a = a.values (leaf j k) l ∙ ground arith

-- the write that `fill` ends with, in any state in which the block has been taken
abbrev pub Writes : State → Slot → (ℕ → State → State) → Type 0
Writes s t put =
    (s1 : State) (n : ℕ)
    → Inv s1
    → Fresh s1 n
    → ((u : Slot) → value s1 u ≡ value s u)
    → ((c : ℕ) → s.uptodate c ≡ true → s1.uptodate c ≡ true)
    → Assigned s1 (put n s1) t n

granted :
    (s : State) (t : Slot) (put : ℕ → State → State) (r : Result (Option ℕ))
    → Inv s
    → IsSlot t
    → value s t ≡ 0
    → Writes s t put
    → ((n : ℕ) (s1 : State) (c : ℕ) → (put n s1).uptodate c ≡ s1.uptodate c)
    → Grants s r
    → Ends (Filled s t 1) (room s ≡ 0) (bind r (λ r s1. done (to_ulong r) (put (to_ulong r) s1)))
unfolding room
granted s t put (done (some n) s1) v i z w same (a, b, c, d, k) =
    let v1 = Took-Inv s s1 n v k in
    let f = Took-Fresh s s1 n v k a b c in
    let g = w s1 n v1 f (Took-value s s1 n v k) k.keeps in
    let z1 : value s1 t ≡ 0 = Took-value s s1 n v k t ∙ z in
    record {
      inv = Assigned-Inv s1 (put n s1) t n v1 f g;
      there = same_slot_self s1 (put n s1) t n i g;
      some_block = λ e. absurd (omega (arith, a, e));
      kept = λ u j h.
          Assigned-kept s1 (put n s1) t n v1 f g z1 u j (λ q. h (sym (Took-value s s1 n v k u) ∙ q))
          ∙ Took-value s s1 n v k u;
      less = omega (arith, Took-room s s1 n k, Assigned-room s1 (put n s1) t n g);
      keeps = λ x h. same n s1 x ∙ k.keeps x h;
    }
granted s t put (done none s1) v i z w same h = absurd h
granted s t put breaks v i z w same h = free_bits-AllSet 170 22 (view s 2) h
granted s t put spins v i z w same h = h

pub fill-Filled :
    (s : State) (t : Slot) (x : ℕ) (put : ℕ → State → State)
    → Inv s
    → IsSlot t
    → value s t ≡ x
    → (value s t ≡ 0 → Writes s t put)
    → ((n : ℕ) (s1 : State) (c : ℕ) → (put n s1).uptodate c ≡ s1.uptodate c)
    → Ends (Filled s t 1) (room s ≡ 0) (fill (super_block 0) x put s)
unfolding fill
fill-Filled s t x put v i e w same =
    if_elim (Ends (Filled s t 1) (room s ≡ 0)) (x == 0) _ (done x s)
      (λ z.
        let q : value s t ≡ 0 = e ∙ ==→eq x 0 z in
        granted s t put (get_block (super_block 0) s) v i q (w q) same (get_block-Grants s v.ready))
      (λ z. record {
        inv = v;
        there = e;
        some_block = ==→ne x 0 z;
        kept = λ u j h. refl;
        less = omega arith;
        keeps = λ c h. h;
      })

-- a weaker statement about the end of a call
pub Ends-map :
    {A : Type 0} (P : A → State → Type 0) (Q : Type 0) (P' : A → State → Type 0) (Q' : Type 0)
    (r : Result A)
    → Ends P Q r
    → ((a : A) (s : State) → P a s → P' a s)
    → (Q → Q')
    → Ends P' Q' r
Ends-map P Q P' Q' (done a s) h f g = f a s h
Ends-map P Q P' Q' breaks h f g = g h
Ends-map P Q P' Q' spins h f g = h
