-- ===== src/Blocks/Disk/Keep.antt =====
-- What reading a block and taking a block keep, in filesystem-block-manager/test.cpp.
use linux_cpp.Prelude.{
  ℕ, ◌≤◌, ◌<◌, ◌≡◌, inl, inr, ap, ◌∙◌, true, false, ◌==◌, Bool-cases, ==→eq, ==→ne, arith,
}
use linux_cpp.Blocks.{Words, set_bit, test_bit}
use linux_cpp.Blocks.Bits.{test_bit-set_bit_same, test_bit-set_bit_ne}
use linux_cpp.Blocks.Disk.{State, read_block}
use linux_cpp.Blocks.Disk.Alloc.{view, Took, read_block-view, read_block-i_data, read_block-IsReady}
use linux_cpp.Blocks.Disk.Slots.{Slot, value, value_eq, Inv, Fresh}

pub read_block-value : (b : ℕ) (s : State) (t : Slot) → value (read_block b s) t ≡ value s t
read_block-value b s t =
    value_eq s (read_block b s) (read_block-i_data b s) (λ u _ _. read_block-view b s (value s u)) t

pub read_block-Inv : (b : ℕ) (s : State) → Inv s → Inv (read_block b s)
read_block-Inv b s v = record {
  ready = read_block-IsReady b s v.ready;
  low = λ t. rw (read_block-value b s t) (v.low t);
  high = λ t. rw (read_block-value b s t) (v.high t);
  used = λ t. rw (read_block-value b s t, read_block-view b s 2) (v.used t);
  distinct = λ t u. rw (read_block-value b s t, read_block-value b s u) (v.distinct t u);
  blank = λ n. rw (read_block-view b s 2, read_block-view b s n) (v.blank n);
}

module _ (s s' : State) (n : ℕ) (v : Inv s) (k : Took s s' n) where
  pub Took-value : (t : Slot) → value s' t ≡ value s t
  Took-value t =
      value_eq s s' k.inode
        (λ u i h. k.others (value s u) (λ e. absurd (omega (arith, v.low u i h, e)))) t

  bit_kept : (m : ℕ) → test_bit m (view s 2) ≡ true → test_bit m (view s' 2) ≡ true
  bit_kept m h = elim (Bool-cases (m == n)) [
    | inl e ↦
        ap (test_bit m) k.bitmap
        ∙ ap (λ j. test_bit j (set_bit n (view s 2))) (==→eq m n e)
        ∙ test_bit-set_bit_same n (view s 2)
    | inr d ↦ ap (test_bit m) k.bitmap ∙ test_bit-set_bit_ne n m (view s 2) (==→ne m n d) ∙ h
  ]

  bit_before : (m : ℕ) → test_bit m (view s' 2) ≡ false → test_bit m (view s 2) ≡ false
  bit_before m h = elim (Bool-cases (test_bit m (view s 2))) [
    | inl e ↦ absurd (ground (arith, bit_kept m e, h))
    | inr e ↦ e
  ]

  pub Took-Inv : Inv s'
  Took-Inv = record {
    ready = k.ready;
    low = λ t. rw (Took-value t) (v.low t);
    high = λ t. rw (Took-value t) (v.high t);
    used = λ t i. rw (Took-value t) (λ h. bit_kept (value s t) (v.used t i h));
    distinct = λ t u. rw (Took-value t, Took-value u) (v.distinct t u);
    blank = λ m a b c i.
        ap (λ (w : Words). w i) (k.others m (λ e. absurd (omega (arith, a, e))))
        ∙ v.blank m a b (bit_before m c) i;
  }

  pub Took-Fresh : 22 ≤ n → n < 192 → test_bit n (view s 2) ≡ false → Fresh s' n
  Took-Fresh a b c = record {
    least = a;
    most = b;
    taken = ap (test_bit n) k.bitmap ∙ test_bit-set_bit_same n (view s 2);
    unowned = λ t i.
        rw (Took-value t)
          (λ e. absurd (ground (arith, c, v.used t i (λ z. absurd (omega (arith, a, e, z))), e)));
    zeros = λ i.
        ap (λ (w : Words). w i) (k.others n (λ e. absurd (omega (arith, a, e))))
        ∙ v.blank n a b c i;
  }
