-- ===== src/Blocks/Disk/Mapping.antt =====
-- `get_blocks` of filesystem-block-manager/test.cpp maps the blocks of a file to blocks of the device.
use linux_cpp.Prelude.{
  ℕ, ◌+◌, ◌-◌, ◌/◌, ◌%◌, ◌≤◌, ◌<◌, ◌≡◌, ◌≢◌, ◌⊎◌, inl, inr, refl, sym, ap, ◌∙◌, true, ltb,
  if◌then◌else◌, if_elim, Bool-cases, lt→ltb, arith,
}
use linux_cpp.Blocks.{Words}
use linux_cpp.Blocks.Disk.{
  State, super_block, breaks, bind, read_block, sb_bread, fill, put_i_data, put_entry, get_indirect,
  get_blocks,
}
use linux_cpp.Blocks.Disk.Alloc.{
  view, read_block-view, read_block-cache, read_block-uptodate, read_block-keeps,
}
use linux_cpp.Blocks.Disk.Slots.{Slot, direct, root, mid, leaf, IsSlot, follow, value, Inv}
use linux_cpp.Blocks.Disk.Keep.{read_block-value, read_block-Inv}
use linux_cpp.Blocks.Disk.Puts.{
  direct-Assigned, root-Assigned, mid-Assigned, leaf-Assigned, follow-view,
}
use linux_cpp.Blocks.Disk.Room.{room}
use linux_cpp.Blocks.Disk.Fill.{Ends, bind-Ends, Ends-map, Filled, fill-Filled}

-- reading a block after an entry has been filled
read_block-Filled :
    (s s' : State) (t : Slot) (b c x : ℕ) → Filled s t c b s' → Filled s t c b (read_block x s')
unfolding room
read_block-Filled s s' t b c x f = record {
  inv = read_block-Inv x s' f.inv;
  there = read_block-value x s' t ∙ f.there;
  some_block = f.some_block;
  kept = λ u i h. read_block-value x s' u ∙ f.kept u i h;
  less = rw (read_block-view x s' 2) f.less;
  keeps = λ y h. read_block-keeps x s' y (f.keeps y h);
}

-- an entry filled in a state in which another one was filled before
then-Filled :
    (s s1 s2 : State) (t u : Slot) (b c m n : ℕ)
    → Filled s t m b s1
    → Filled s1 u n c s2
    → Filled s u (m + n) c s2
then-Filled s s1 s2 t u b c m n f g = record {
  inv = g.inv;
  there = g.there;
  some_block = g.some_block;
  kept = λ x i h. g.kept x i (λ z. h (sym (f.kept x i h) ∙ z)) ∙ f.kept x i h;
  less = omega (arith, f.less, g.less);
  keeps = λ y h. g.keeps y (f.keeps y h);
}

-- a block to which an entry points can be read, and is up to date afterwards
sb_bread-Filled :
    (s s1 : State) (t : Slot) (b c : ℕ) (Q : Type 0)
    → IsSlot t
    → Filled s t c b s1
    → Ends
        (λ b' s2. (b' ≡ b) × Filled s t c b s2 × (s2.uptodate b ≡ true) × (s2.cache b ≡ view s2 b))
        Q
        (sb_bread b s1)
unfolding sb_bread
sb_bread-Filled s s1 t b c Q i f =
    let small : b < 1024 =
      omega (arith, f.inv.high t i (λ z. f.some_block (sym f.there ∙ z)), f.there) in
    let u = read_block-uptodate b s1 in
    rw (lt→ltb b 1024 small) (
      refl,
      read_block-Filled s s1 t b c b f,
      u,
      read_block-cache b s1 ∙ sym (read_block-view b s1 b),
    )

leaf_fill :
    (s : State) (j k m : ℕ)
    → Inv s
    → value s (mid j) ≡ m
    → m ≢ 0
    → s.uptodate m ≡ true
    → s.cache m ≡ view s m
    → Ends
        (Filled s (leaf j k) 1)
        (room s ≡ 0)
        (fill (super_block 0) (s.cache m k) (put_entry m k) s)
unfolding value
leaf_fill s j k m v e h u c =
    fill-Filled s (leaf j k) (s.cache m k) (put_entry m k) v tt
      (ap (λ b. follow s b k) e ∙ follow-view s m k h ∙ ap (λ (w : Words). w k) (sym c))
      (λ z s1 n v1 f same keeps.
        let q : value s1 (mid j) ≡ m = same (mid j) ∙ e in
        rw q at (leaf-Assigned s1 j k n v1 (λ p. h (sym q ∙ p)) (ap s1.uptodate q ∙ keeps m u)))
      (λ n s1 x. refl)

mid_fill :
    (s : State) (j m : ℕ)
    → Inv s
    → value s root ≡ m
    → m ≢ 0
    → s.uptodate m ≡ true
    → s.cache m ≡ view s m
    → Ends (Filled s (mid j) 1) (room s ≡ 0) (fill (super_block 0) (s.cache m j) (put_entry m j) s)
unfolding value
mid_fill s j m v e h u c =
    fill-Filled s (mid j) (s.cache m j) (put_entry m j) v tt
      (ap (λ b. follow s b j) e ∙ follow-view s m j h ∙ ap (λ (w : Words). w j) (sym c))
      (λ z s1 n v1 f same keeps.
        let q : value s1 root ≡ m = same root ∙ e in
        rw q at (
          mid-Assigned s1 j n v1 (λ p. h (sym q ∙ p)) (ap s1.uptodate q ∙ keeps m u)
            (same (mid j) ∙ z) f))
      (λ n s1 x. refl)

root_fill :
    (s : State)
    → Inv s
    → Ends (Filled s root 1) (room s ≡ 0) (fill (super_block 0) (s.i_data 4) (put_i_data 4) s)
unfolding value
root_fill s v =
    fill-Filled s root (s.i_data 4) (put_i_data 4) v tt refl
      (λ z s1 n v1 f same keeps. root-Assigned s1 n (same root ∙ z) f v1.ready) (λ n s1 x. refl)

direct_fill :
    (s : State) (i : ℕ)
    → Inv s
    → i < 4
    → Ends (Filled s (direct i) 1) (room s ≡ 0) (fill (super_block 0) (s.i_data i) (put_i_data i) s)
unfolding value
direct_fill s i v l =
    fill-Filled s (direct i) (s.i_data i) (put_i_data i) v l refl
      (λ z s1 n v1 f same keeps. direct-Assigned s1 i n l v1.ready) (λ n s1 x. refl)

-- the part of `get_indirect` from the second index block on
last_fill :
    (s s1 : State) (j k m : ℕ)
    → Filled s (mid j) 2 m s1
    → Ends
        (Filled s (leaf j k) 3)
        ((room s ≤ 2) ⊎ (128 ≤ j))
        (bind (sb_bread m s1) (λ b s4. fill (super_block 0) (s4.cache b k) (put_entry b k) s4))
last_fill s s1 j k m f =
    bind-Ends _ ((room s ≤ 2) ⊎ (128 ≤ j)) _ _ (sb_bread m s1) _
      (sb_bread-Filled s s1 (mid j) m 2 ((room s ≤ 2) ⊎ (128 ≤ j)) tt f)
      (λ b s4 (e, g, u, q). rw e (
        Ends-map _ _ _ _ (fill (super_block 0) (s4.cache m k) (put_entry m k) s4)
          (leaf_fill s4 j k m g.inv g.there g.some_block u q)
          (λ b' s5 h. then-Filled s s4 s5 (mid j) (leaf j k) m b' 2 1 g h)
          (λ z. inl (omega (arith, g.less)))))
      (λ h. h)

indirect_fill :
    (s : State) (j k : ℕ)
    → Inv s
    → Ends (Filled s (leaf j k) 3) ((room s ≤ 2) ⊎ (128 ≤ j)) (get_indirect (super_block 0) j k s)
unfolding get_indirect
indirect_fill s j k v =
    bind-Ends _ _ _ _ (fill (super_block 0) (s.i_data 4) (put_i_data 4) s) _ (root_fill s v)
      (λ r s1 f.
        bind-Ends _ ((room s ≤ 2) ⊎ (128 ≤ j)) _ _ (sb_bread r s1) _
          (sb_bread-Filled s s1 root r 1 _ tt f)
          (λ b s2 (e, g, u, q). rw e (
            if_elim (Ends (Filled s (leaf j k) 3) ((room s ≤ 2) ⊎ (128 ≤ j))) (ltb j 128) _ breaks
              (λ _.
                bind-Ends _ _ _ _ (fill (super_block 0) (s2.cache r j) (put_entry r j) s2) _
                  (mid_fill s2 j r g.inv g.there g.some_block u q)
                  (λ m s3 h. last_fill s s3 j k m (then-Filled s s2 s3 root (mid j) r m 1 1 g h))
                  (λ z. inl (omega (arith, g.less))))
              (λ h. inr (ground arith))))
          (λ h. h))
      (λ z. inl (omega arith))

-- the entry that ends the way to a block of the file
abbrev pub slot_of : ℕ → Slot
slot_of iblock =
    if ltb iblock 4 then direct iblock else leaf ((iblock - 4) / 128) ((iblock - 4) % 128)

pub slot_of-IsSlot : (i : ℕ) → IsSlot (slot_of i)
slot_of-IsSlot i =
    if_elim IsSlot (ltb i 4) (direct i) (leaf ((i - 4) / 128) ((i - 4) % 128)) (λ e. ground arith)
      (λ e. tt)

direct_get :
    (s : State) (i : ℕ)
    → Inv s
    → i < 4
    → Ends
        (Filled s (direct i) 3)
        ((room s ≤ 2) ⊎ (16388 ≤ i))
        (fill (super_block 0) (s.i_data i) (put_i_data i) s)
direct_get s i v l =
    Ends-map (Filled s (direct i) 1) (room s ≡ 0) _ _ _ (direct_fill s i v l)
      (λ b s' f. record {
        inv = f.inv;
        there = f.there;
        some_block = f.some_block;
        kept = f.kept;
        less = omega (arith, f.less);
        keeps = f.keeps;
      })
      (λ z. inl (omega (arith, z)))

indirect_get :
    (s : State) (i : ℕ)
    → Inv s
    → 4 ≤ i
    → Ends
        (Filled s (leaf ((i - 4) / 128) ((i - 4) % 128)) 3)
        ((room s ≤ 2) ⊎ (16388 ≤ i))
        (get_indirect (super_block 0) ((i - 4) / 128) ((i - 4) % 128) s)
indirect_get s i v l =
    Ends-map (Filled s (leaf ((i - 4) / 128) ((i - 4) % 128)) 3)
      ((room s ≤ 2) ⊎ (128 ≤ (i - 4) / 128)) _ _ _
      (indirect_fill s ((i - 4) / 128) ((i - 4) % 128) v) (λ b s' f. f)
      (λ z. elim z [ inl x ↦ inl x | inr x ↦ inr (omega (arith, x, l)) ])

-- Where what holds of the entries holds, `get_blocks` returns the block that the entry of the logical
-- block now has, keeps what holds, takes no block from another entry and three blocks at most from the
-- free ones; it meets an undefined access only with two free blocks or fewer, or beyond 16388 blocks of
-- the file, and it always ends.
pub get_blocks-Filled :
    (i : ℕ) (s : State)
    → Inv s
    → Ends (Filled s (slot_of i) 3) ((room s ≤ 2) ⊎ (16388 ≤ i)) (get_blocks (super_block 0) i s)
unfolding get_blocks
get_blocks-Filled i s v = elim (Bool-cases (ltb i 4)) [
  | inl e ↦ rw e (direct_get s i v (ground arith))
  | inr e ↦ rw e (indirect_get s i v (ground arith))
]
