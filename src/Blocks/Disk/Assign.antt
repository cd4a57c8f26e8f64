-- ===== src/Blocks/Disk/Assign.antt =====
-- An entry of filesystem-block-manager/test.cpp that gets a new block.
use linux_cpp.Prelude.{ℕ, ◌≡◌, ◌≢◌, ◌⊎◌, inl, inr, sym, ap, ◌∙◌, Bool-cases, arith}
use linux_cpp.Blocks.Disk.{State}
use linux_cpp.Blocks.Disk.Slots.{Slot, IsSlot, same_slot, same_slot-eq, value, Inv, Fresh, Assigned}

module _ (s s' : State) (t : Slot) (n : ℕ) (v : Inv s) (f : Fresh s n) (a : Assigned s s' t n) where
  -- entry `u` of the new state is `t` with the value `n`, or has its old value
  old_or_new : (u : Slot) → IsSlot u → ((u ≡ t) × (value s' u ≡ n)) ⊎ (value s' u ≡ value s u)
  old_or_new u i = elim (Bool-cases (same_slot t u)) [
    | inl e ↦ inl (same_slot-eq t u e, rw e at (a.values u i))
    | inr e ↦ inr (rw e at (a.values u i))
  ]

  distinct' : (x y : Slot) → IsSlot x → IsSlot y → value s' x ≢ 0 → value s' x ≡ value s' y → x ≡ y
  distinct' x y i j h e = elim (old_or_new x i) [
    | inl (p, p') ↦ elim (old_or_new y j) [
      | inl (q, q') ↦ p ∙ sym q
      | inr q ↦ absurd (f.unowned y j (sym q ∙ sym e ∙ p'))
    ]
    | inr p ↦ elim (old_or_new y j) [
      | inl (q, q') ↦ absurd (f.unowned x i (sym p ∙ e ∙ q'))
      | inr q ↦ v.distinct x y i j (λ z. h (p ∙ z)) (sym p ∙ e ∙ q)
    ]
  ]

  pub Assigned-Inv : Inv s'
  Assigned-Inv = record {
    ready = a.ready;
    low = λ u i h. elim (old_or_new u i) [
      | inl (p, p') ↦ omega (arith, f.least, p')
      | inr p ↦ omega (arith, p, v.low u i (λ z. h (p ∙ z)))
    ];
    high = λ u i h. elim (old_or_new u i) [
      | inl (p, p') ↦ omega (arith, f.most, p')
      | inr p ↦ omega (arith, p, v.high u i (λ z. h (p ∙ z)))
    ];
    used = λ u i h. elim (old_or_new u i) [
      | inl (p, p') ↦ rw (a.bitmap, p') f.taken
      | inr p ↦ rw (a.bitmap, p) (v.used u i (λ z. h (p ∙ z)))
    ];
    distinct = distinct';
    blank = λ m l u h i. a.unused m l u (rw a.bitmap at h) i ∙ v.blank m l u (rw a.bitmap at h) i;
  }

  -- an entry that has a block keeps it
  pub Assigned-kept : value s t ≡ 0 → (u : Slot) → IsSlot u → value s u ≢ 0 → value s' u ≡ value s u
  Assigned-kept z u i h = elim (old_or_new u i) [
    | inl (p, p') ↦ absurd (h (ap (value s) p ∙ z))
    | inr p ↦ p
  ]
