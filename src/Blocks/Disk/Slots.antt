-- ===== src/Blocks/Disk/Slots.antt =====
-- The entries that point to the blocks of an inode in filesystem-block-manager/test.cpp, and what holds
-- of the blocks that they point to.
use linux_cpp.Prelude.{
  ℕ, ◌≤◌, ◌<◌, ◌≡◌, ◌≢◌, inl, inr, refl, ap, ap₂, Bool, true, false, ◌&&◌, ◌==◌, if◌then◌else◌,
  Bool-cases, ==→eq, ==→ne, arith,
}
use linux_cpp.Blocks.{Words, test_bit}
use linux_cpp.Blocks.Disk.{State}
use linux_cpp.Blocks.Disk.Alloc.{view, IsReady}

-- an entry: of `i_data`, of the index block, or of a block that the index block points to
pub data Slot : Type 0 where
  direct : ℕ → Slot
  root : Slot
  mid : ℕ → Slot
  leaf : ℕ → ℕ → Slot

abbrev pub IsSlot : Slot → Type 0
IsSlot (direct i) = i < 4
IsSlot root = Unit
IsSlot (mid j) = Unit
IsSlot (leaf j k) = Unit

abbrev pub same_slot : Slot → Slot → Bool
same_slot (direct i) (direct j) = j == i
same_slot (direct i) root = false
same_slot (direct i) (mid j) = false
same_slot (direct i) (leaf j k) = false
same_slot root root = true
same_slot root (direct j) = false
same_slot root (mid j) = false
same_slot root (leaf j k) = false
same_slot (mid i) (mid j) = j == i
same_slot (mid i) (direct j) = false
same_slot (mid i) root = false
same_slot (mid i) (leaf j k) = false
same_slot (leaf i l) (leaf j k) = (j == i) && (k == l)
same_slot (leaf i l) (direct j) = false
same_slot (leaf i l) root = false
same_slot (leaf i l) (mid j) = false

pub same_slot-eq : (t u : Slot) → same_slot t u ≡ true → u ≡ t
same_slot-eq (direct i) (direct j) e = ap direct (==→eq j i e)
same_slot-eq (direct i) root e = absurd (cc)
same_slot-eq (direct i) (mid j) e = absurd (cc)
same_slot-eq (direct i) (leaf j k) e = absurd (cc)
same_slot-eq root root e = refl
same_slot-eq root (direct j) e = absurd (cc)
same_slot-eq root (mid j) e = absurd (cc)
same_slot-eq root (leaf j k) e = absurd (cc)
same_slot-eq (mid i) (mid j) e = ap mid (==→eq j i e)
same_slot-eq (mid i) (direct j) e = absurd (cc)
same_slot-eq (mid i) root e = absurd (cc)
same_slot-eq (mid i) (leaf j k) e = absurd (cc)
same_slot-eq (leaf i l) (leaf j k) e = ap₂ leaf (ground (arith, e)) (ground (arith, e))
same_slot-eq (leaf i l) (direct j) e = absurd (cc)
same_slot-eq (leaf i l) root e = absurd (cc)
same_slot-eq (leaf i l) (mid j) e = absurd (cc)

-- entry `i` of block `b`, 0 where there is no block
unfoldable pub follow : State → ℕ → ℕ → ℕ
follow s b i = if b == 0 then 0 else view s b i

unfoldable pub value : State → Slot → ℕ
value s (direct i) = s.i_data i
value s root = s.i_data 4
value s (mid j) = follow s (s.i_data 4) j
value s (leaf j k) = follow s (follow s (s.i_data 4) j) k

pub record Inv (s : State) : Type 0 where
  pub ready : IsReady s
  pub low : (t : Slot) → IsSlot t → value s t ≢ 0 → 22 ≤ value s t
  pub high : (t : Slot) → IsSlot t → value s t ≢ 0 → value s t < 192
  pub used : (t : Slot) → IsSlot t → value s t ≢ 0 → test_bit (value s t) (view s 2) ≡ true
  pub distinct : (t u : Slot) → IsSlot t → IsSlot u → value s t ≢ 0 → value s t ≡ value s u → t ≡ u
  pub blank : (n : ℕ) → 22 ≤ n → n < 192 → test_bit n (view s 2) ≡ false → (i : ℕ) → view s n i ≡ 0

-- a block that no entry points to yet
pub record Fresh (s : State) (n : ℕ) : Type 0 where
  pub least : 22 ≤ n
  pub most : n < 192
  pub taken : test_bit n (view s 2) ≡ true
  pub unowned : (t : Slot) → IsSlot t → value s t ≢ n
  pub zeros : (i : ℕ) → view s n i ≡ 0

-- entry `t` of `s` has got the value `n`, and nothing else has changed that an entry depends on
pub record Assigned (s s' : State) (t : Slot) (n : ℕ) : Type 0 where
  pub values : (u : Slot) → IsSlot u → value s' u ≡ (if same_slot t u then n else value s u)
  pub bitmap : view s' 2 ≡ view s 2
  pub ready : IsReady s'
  pub unused :
      (m : ℕ)
      → 22 ≤ m
      → m < 192
      → test_bit m (view s 2) ≡ false
      → (i : ℕ) → view s' m i ≡ view s m i

pub follow_eq :
    (s s' : State) (b : ℕ) (i : ℕ) → (b ≢ 0 → view s' b ≡ view s b) → follow s' b i ≡ follow s b i
unfolding follow
follow_eq s s' b i h = elim (Bool-cases (b == 0)) [
  | inl e ↦ rw e refl
  | inr n ↦ rw n (ap (λ (w : Words). w i) (h (==→ne b 0 n)))
]

-- the entries of two states that show the same in all blocks to which an entry points
pub value_eq :
    (s s' : State)
    → s'.i_data ≡ s.i_data
    → ((t : Slot) → IsSlot t → value s t ≢ 0 → view s' (value s t) ≡ view s (value s t))
    → (t : Slot) → value s' t ≡ value s t
unfolding value follow
value_eq s s' e h (direct i) = ap (λ (w : Words). w i) e
value_eq s s' e h root = ap (λ (w : Words). w 4) e
value_eq s s' e h (mid j) = rw e (follow_eq s s' (s.i_data 4) j (h root tt))
value_eq s s' e h (leaf j k) =
    rw (e, follow_eq s s' (s.i_data 4) j (h root tt))
      (follow_eq s s' (follow s (s.i_data 4) j) k (h (mid j) tt))
