-- ===== src/Blocks/Disk/Puts.antt =====
-- The writes of a new block's number, in `i_data` and in index blocks, of
-- filesystem-block-manager/test.cpp.
use linux_cpp.Prelude.{
  ℕ, ◌≤◌, ◌<◌, ◌≡◌, ◌≢◌, inl, inr, refl, sym, ap, ◌∙◌, true, false, ◌==◌, if◌then◌else◌, if_elim,
  Bool-cases, ==→eq, ==→ne, ne→==, arith,
}
use linux_cpp.Blocks.{Words, store, test_bit}
use linux_cpp.Blocks.Disk.{State, put_i_data, put_entry}
use linux_cpp.Blocks.Bits.{store_ne}
use linux_cpp.Blocks.Disk.Alloc.{view, IsReady, put_block-view_same, put_block-view_ne}
use linux_cpp.Blocks.Disk.Slots.{
  Slot, direct, root, mid, leaf, IsSlot, same_slot, follow, follow_eq, value, Inv, Fresh, Assigned,
}

follow_zeros : (s : State) (n : ℕ) → ((i : ℕ) → view s n i ≡ 0) → (i : ℕ) → follow s n i ≡ 0
unfolding follow
follow_zeros s n z i = if_elim (λ x. x ≡ 0) (n == 0) 0 (view s n i) (λ _. refl) (λ _. z i)

follow_none : (s : State) (b i : ℕ) → b ≡ 0 → follow s b i ≡ 0
unfolding follow
follow_none s b i e = rw e refl

pub follow-view : (s : State) (b i : ℕ) → b ≢ 0 → follow s b i ≡ view s b i
unfolding follow
follow-view s b i h = rw (ne→== b 0 h) refl

cache-view : (s : State) (b : ℕ) → s.uptodate b ≡ true → s.cache b ≡ view s b
cache-view s b u = ground (arith, u)

-- a write to a block to which an entry points
record Entry (s s' : State) (b i n : ℕ) : Type 0 where
  at_block : view s' b ≡ store (view s b) i n
  elsewhere : (c : ℕ) → c ≢ b → view s' c ≡ view s c

put_entry-Entry : (s : State) (b i n : ℕ) → s.uptodate b ≡ true → Entry s (put_entry b i n s) b i n
put_entry-Entry s b i n u = record {
  at_block =
      put_block-view_same s b (store (s.cache b) i n) u ∙ ap (λ w. store w i n) (cache-view s b u);
  elsewhere = put_block-view_ne s b (store (s.cache b) i n);
}

abbrev mid_index : Slot → ℕ
mid_index (mid j) = j
mid_index (direct i) = 0
mid_index root = 0
mid_index (leaf j k) = 0

mid_root : {j : ℕ} → mid j ≢ root
mid_root = λ e. absurd (cc)

pub direct-Assigned :
    (s : State) (i n : ℕ) → i < 4 → IsReady s → Assigned s (put_i_data i n s) (direct i) n
unfolding value follow
direct-Assigned s i n h r = record {
  values = at_slot;
  bitmap = refl;
  ready = record { read = r.read; desc = r.desc; high = r.high };
  unused = λ m _ _ _ j. refl;
}
  where
    other_entry : store s.i_data i n 4 ≡ s.i_data 4
    other_entry = store_ne s.i_data i n 4 (λ e. absurd (omega (arith, h, e)))

    at_slot :
        (u : Slot)
        → IsSlot u
        → value (put_i_data i n s) u ≡ (if same_slot (direct i) u then n else value s u)
    at_slot (direct j) l = refl
    at_slot root l = other_entry
    at_slot (mid j) l = ap (λ b. follow s b j) other_entry
    at_slot (leaf j k) l = ap (λ b. follow s (follow s b j) k) other_entry

pub root-Assigned :
    (s : State) (n : ℕ)
    → value s root ≡ 0
    → Fresh s n
    → IsReady s
    → Assigned s (put_i_data 4 n s) root n
unfolding value
root-Assigned s n z f r = record {
  values = at_slot;
  bitmap = refl;
  ready = record { read = r.read; desc = r.desc; high = r.high };
  unused = λ m _ _ _ j. refl;
}
  where
    no_mid : (j : ℕ) → follow s (s.i_data 4) j ≡ 0
    no_mid j = follow_none s (s.i_data 4) j z

    new_mid : (j : ℕ) → follow (put_i_data 4 n s) n j ≡ 0
    new_mid j = follow_zeros (put_i_data 4 n s) n f.zeros j

    at_slot :
        (u : Slot)
        → IsSlot u
        → value (put_i_data 4 n s) u ≡ (if same_slot root u then n else value s u)
    at_slot (direct j) l = store_ne s.i_data 4 n j (λ e. absurd (omega (arith, l, e)))
    at_slot root l = refl
    at_slot (mid j) l = new_mid j ∙ sym (no_mid j)
    at_slot (leaf j k) l =
        follow_none (put_i_data 4 n s) (follow (put_i_data 4 n s) n j) k (new_mid j)
        ∙ sym (follow_none s (follow s (s.i_data 4) j) k (no_mid j))

module _ (s : State) (t : Slot) (i n : ℕ) (v : Inv s) (p : IsSlot t) (h : value s t ≢ 0)
    (w : Entry s (put_entry (value s t) i n s) (value s t) i n) where
  entry_bitmap : view (put_entry (value s t) i n s) 2 ≡ view s 2
  entry_bitmap = w.elsewhere 2 (λ e. absurd (omega (arith, v.low t p h, e)))

  entry-IsReady : IsReady (put_entry (value s t) i n s)
  entry-IsReady = record {
    read = v.ready.read;
    desc =
        ap (λ (x : Words). x 0) (w.elsewhere 1 (λ e. absurd (omega (arith, v.low t p h, e))))
        ∙ v.ready.desc;
    high = λ m l u. ap (test_bit m) entry_bitmap ∙ v.ready.high m l u;
  }

  entry_unused :
      (m : ℕ)
      → 22 ≤ m
      → m < 192
      → test_bit m (view s 2) ≡ false
      → (j : ℕ) → view (put_entry (value s t) i n s) m j ≡ view s m j
  entry_unused m l u f j =
      ap (λ (x : Words). x j) (w.elsewhere m (λ e. absurd (ground (arith, f, e, v.used t p h))))

pub mid-Assigned :
    (s : State) (j n : ℕ)
    → Inv s
    → value s root ≢ 0
    → s.uptodate (value s root) ≡ true
    → value s (mid j) ≡ 0
    → Fresh s n
    → Assigned s (put_entry (value s root) j n s) (mid j) n
unfolding value
mid-Assigned s j n v h u z f = record {
  values = at_slot;
  bitmap = entry_bitmap s root j n v tt h w;
  ready = entry-IsReady s root j n v tt h w;
  unused = entry_unused s root j n v tt h w;
}
  where
    r : ℕ
    r = s.i_data 4

    s2 : State
    s2 = put_entry (value s root) j n s

    w : Entry s s2 r j n
    w = put_entry-Entry s r j n u

    at_mid : (j' : ℕ) → follow s2 r j' ≡ (if j' == j then n else follow s r j')
    at_mid j' =
        follow-view s2 r j' h
        ∙ ap (λ (x : Words). x j') w.at_block
        ∙ ap (λ y. if j' == j then n else y) (sym (follow-view s r j' h))

    new_leaf :
        (j' k : ℕ)
        → follow s2 r j' ≡ n
        → follow s (follow s r j') k ≡ 0
        → follow s2 (follow s2 r j') k ≡ follow s (follow s r j') k
    new_leaf j' k e e' =
        ap (λ b. follow s2 b k) e
        ∙ follow_zeros s2 n
            (λ i.
              ap (λ (x : Words). x i) (w.elsewhere n (λ q. f.unowned root tt (sym q))) ∙ f.zeros i)
            k
        ∙ sym e'

    old_leaf :
        (j' k : ℕ)
        → follow s2 r j' ≡ follow s r j'
        → follow s2 (follow s2 r j') k ≡ follow s (follow s r j') k
    old_leaf j' k e =
        ap (λ b. follow s2 b k) e
        ∙ follow_eq s s2 (follow s r j') k (λ m.
          w.elsewhere (follow s r j') (λ q. absurd (mid_root (v.distinct (mid j') root tt tt m q))))

    at_slot : (x : Slot) → IsSlot x → value s2 x ≡ (if same_slot (mid j) x then n else value s x)
    at_slot (direct i) l = refl
    at_slot root l = refl
    at_slot (mid j') l = at_mid j'
    at_slot (leaf j' k) l = elim (Bool-cases (j' == j)) [
      | inl e ↦
          new_leaf j' k (rw e at (at_mid j'))
            (follow_none s (follow s r j') k (ap (follow s r) (==→eq j' j e) ∙ z))
      | inr e ↦ old_leaf j' k (rw e at (at_mid j'))
    ]

pub leaf-Assigned :
    (s : State) (j k n : ℕ)
    → Inv s
    → value s (mid j) ≢ 0
    → s.uptodate (value s (mid j)) ≡ true
    → Assigned s (put_entry (value s (mid j)) k n s) (leaf j k) n
unfolding value
leaf-Assigned s j k n v h u = record {
  values = at_slot;
  bitmap = entry_bitmap s (mid j) k n v tt h w;
  ready = entry-IsReady s (mid j) k n v tt h w;
  unused = entry_unused s (mid j) k n v tt h w;
}
  where
    r : ℕ
    r = s.i_data 4

    b : ℕ
    b = follow s r j

    s2 : State
    s2 = put_entry b k n s

    w : Entry s s2 b k n
    w = put_entry-Entry s b k n u

    at_mid : (j' : ℕ) → follow s2 r j' ≡ follow s r j'
    at_mid j' =
        follow_eq s s2 r j'
          (λ m. w.elsewhere r (λ q. absurd (mid_root (sym (v.distinct root (mid j) tt tt m q)))))

    this_leaf : (k' : ℕ) → follow s2 b k' ≡ (if k' == k then n else follow s b k')
    this_leaf k' =
        follow-view s2 b k' h
        ∙ ap (λ (x : Words). x k') w.at_block
        ∙ ap (λ y. if k' == k then n else y) (sym (follow-view s b k' h))

    that_leaf : (j' k' : ℕ) → j' ≢ j → follow s2 (follow s r j') k' ≡ follow s (follow s r j') k'
    that_leaf j' k' d = follow_eq s s2 (follow s r j') k' (λ m.
        w.elsewhere (follow s r j')
          (λ q. absurd (d (ap mid_index (v.distinct (mid j') (mid j) tt tt m q)))))

    at_slot : (x : Slot) → IsSlot x → value s2 x ≡ (if same_slot (leaf j k) x then n else value s x)
    at_slot (direct i) l = refl
    at_slot root l = refl
    at_slot (mid j') l = at_mid j'
    at_slot (leaf j' k') l = ap (λ m. follow s2 m k') (at_mid j') ∙ elim (Bool-cases (j' == j)) [
      | inl e ↦ rw e (
          ap (λ i. follow s2 (follow s r i) k') (==→eq j' j e)
          ∙ this_leaf k'
          ∙ ap (λ i. if k' == k then n else follow s (follow s r i) k') (sym (==→eq j' j e)))
      | inr e ↦ rw e (that_leaf j' k' (==→ne j' j e))
    ]
