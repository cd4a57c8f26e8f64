-- ===== src/Blocks/Disk/Format.antt =====
-- The device of filesystem-block-manager/test.cpp after `main` has formatted its groups.
use linux_cpp.Prelude.{
  ℕ, ◌+◌, ◌*◌, ◌≤◌, ◌<◌, ◌≡◌, ◌≢◌, inl, inr, refl, ap, ◌∙◌, Bool, true, Bool-cases, ne→==, lt→ltb,
  arith,
}
use linux_cpp.Blocks.{Words, set_bit}
use linux_cpp.Blocks.Disk.{
  State, super_block, group_start_block, put_block, read_block, write_block, sb_bread, put_descs,
  init_group_desc, init_block_bitmap, format_group, format, blank_state,
}
use linux_cpp.Blocks.Disk.Alloc.{view, read_block-view, read_block-keeps, read_block-i_data}
use linux_cpp.Blocks.Disk.Fill.{Ends, bind-Ends}

-- the bitmap of a group with its first four blocks in use
unfoldable pub first_bits : Words
first_bits = set_bit 3 (set_bit 2 (set_bit 1 (set_bit 0 (set_bit 0 (λ _. 0)))))

-- block `b` has become `ws`, and nothing else has changed that can be read
record Edited (s s' : State) (b : ℕ) (ws : Words) : Type 0 where
  here : view s' b ≡ ws
  elsewhere : (c : ℕ) → c ≢ b → view s' c ≡ view s c
  marked : s'.uptodate b ≡ true
  cached : s'.cache b ≡ ws
  keeps : (c : ℕ) → s.uptodate c ≡ true → s'.uptodate c ≡ true
  inode : s'.i_data ≡ s.i_data

write-Edited :
    (s : State) (b : ℕ) (ws : Words)
    → Edited s (write_block b (record s { cache = put_block s.cache b ws })) b ws
unfolding write_block
write-Edited s b ws = record {
  here = ground arith;
  elsewhere = λ c h. rw (ne→== c b h) refl;
  marked = ground arith;
  cached = ground arith;
  keeps = λ c h. ground (arith, h);
  inode = refl;
}

-- The two blocks of group `ngp` that `main` writes. `old` is what the first of them was.
record IsFormatted (s s' : State) (ngp : ℕ) : Type 0 where
  descs :
      (old : Words) × (view s' (group_start_block ngp + 1) ≡ put_descs 4 (super_block ngp) 0 old)
  bits : view s' (ngp * 256 + 2) ≡ first_bits
  elsewhere : (c : ℕ) → c ≢ group_start_block ngp + 1 → c ≢ ngp * 256 + 2 → view s' c ≡ view s c
  marked : s'.uptodate (group_start_block ngp + 1) ≡ true
  keeps : (c : ℕ) → s.uptodate c ≡ true → s'.uptodate c ≡ true
  inode : s'.i_data ≡ s.i_data

next_block : (n : ℕ) → n + 0 + 1 ≢ n + 2
next_block n = λ e. absurd (omega (arith, e))

format_group-IsFormatted :
    (ngp : ℕ) (s : State)
    → ngp < 4
    → ((ws : Words) → put_descs 4 (super_block ngp) 0 ws (4 * ngp) ≡ ngp * 256 + 2)
    → Ends (λ _ s'. IsFormatted s s' ngp) ⊥ (format_group ngp s)
unfolding format_group super_block sb_bread init_group_desc init_block_bitmap first_bits
format_group-IsFormatted ngp s l e =
    let s1 = read_block (ngp * 256 + 0 + 0) s in
    let gdb = ngp * 256 + 0 + 1 in
    let s2 = read_block gdb s1 in
    let ws = put_descs 4 (super_block ngp) 0 (s2.cache gdb) in
    let s3 = write_block gdb (record s2 { cache = put_block s2.cache gdb ws }) in
    let w3 = write-Edited s2 gdb ws in
    let at_bitmap : s3.cache gdb (4 * ngp) ≡ ngp * 256 + 2 =
      ap (λ (x : Words). x (4 * ngp)) w3.cached ∙ e (s2.cache gdb) in
    let s4 = read_block (ngp * 256 + 2) s3 in
    let w5 = write-Edited s4 (ngp * 256 + 2) first_bits in
    rw
      (
        lt→ltb (ngp * 256 + 0 + 0) 1024 (omega arith),
        lt→ltb gdb 1024 (omega arith),
        at_bitmap,
        lt→ltb (ngp * 256 + 2) 1024 (omega arith),
      )
      (record {
        descs = (
          s2.cache gdb,
          w5.elsewhere gdb (next_block (ngp * 256))
              ∙ read_block-view (ngp * 256 + 2) s3 gdb
              ∙ w3.here,
        );
        bits = w5.here;
        elsewhere = λ c h h'.
            w5.elsewhere c h'
            ∙ read_block-view (ngp * 256 + 2) s3 c
            ∙ w3.elsewhere c h
            ∙ read_block-view gdb s1 c
            ∙ read_block-view (ngp * 256 + 0 + 0) s c;
        marked = w5.keeps gdb (read_block-keeps (ngp * 256 + 2) s3 gdb w3.marked);
        keeps = λ c h. w5.keeps c (
            read_block-keeps (ngp * 256 + 2) s3 c (
              w3.keeps c (read_block-keeps gdb s1 c (read_block-keeps (ngp * 256 + 0 + 0) s c h))));
        inode =
            w5.inode
            ∙ read_block-i_data (ngp * 256 + 2) s3
            ∙ w3.inode
            ∙ read_block-i_data gdb s1
            ∙ read_block-i_data (ngp * 256 + 0 + 0) s;
      })

-- what a new file finds
pub record IsNew (s : State) : Type 0 where
  pub desc : view s 1 0 ≡ 2
  pub read : s.uptodate 1 ≡ true
  pub bitmap : view s 2 ≡ first_bits
  pub zeros : (c : ℕ) → 22 ≤ c → c < 192 → view s c ≡ (λ _. 0)
  pub no_entry : s.i_data ≡ (λ _. 0)

blank-view : (u : ℕ → Bool) (c : ℕ) → view (blank_state u) c ≡ (λ _. 0)
unfolding blank_state
blank-view u c = elim (Bool-cases (u c)) [ inl e ↦ rw e refl | inr e ↦ rw e refl ]

-- group 0, and then any other group
first-IsNew : (u : ℕ → Bool) (s : State) → IsFormatted (blank_state u) s 0 → IsNew s
unfolding put_descs super_block blank_state
first-IsNew u s f =
    let (old, e) = f.descs in
    record {
      desc = ap (λ (w : Words). w 0) e;
      read = f.marked;
      bitmap = f.bits;
      zeros = λ c l h.
          f.elsewhere c (λ q. absurd (omega (arith, l, q))) (λ q. absurd (omega (arith, l, q)))
          ∙ blank-view u c;
      no_entry = f.inode;
    }

later-IsNew : (ngp : ℕ) (s s' : State) → 0 < ngp → IsNew s → IsFormatted s s' ngp → IsNew s'
later-IsNew ngp s s' p v f = record {
  desc =
      ap (λ (w : Words). w 0)
        (f.elsewhere 1 (λ q. absurd (omega (arith, p, q))) (λ q. absurd (omega (arith, p, q))))
      ∙ v.desc;
  read = f.keeps 1 v.read;
  bitmap =
      f.elsewhere 2 (λ q. absurd (omega (arith, p, q))) (λ q. absurd (omega (arith, p, q)))
      ∙ v.bitmap;
  zeros = λ c l h.
      f.elsewhere c (λ q. absurd (omega (arith, p, h, q))) (λ q. absurd (omega (arith, p, h, q)))
      ∙ v.zeros c l h;
  no_entry = f.inode ∙ v.no_entry;
}

pub format-IsNew : (u : ℕ → Bool) → Ends (λ _ s. IsNew s) ⊥ (format 4 0 (blank_state u))
unfolding format put_descs super_block
format-IsNew u =
    bind-Ends _ _ _ _ (format_group 0 (blank_state u)) _
      (format_group-IsFormatted 0 (blank_state u) (omega arith) (λ ws. refl))
      (λ _ s0 f0.
        bind-Ends _ _ _ _ (format_group 1 s0) _
          (format_group-IsFormatted 1 s0 (omega arith) (λ ws. refl))
          (λ _ s1 f1.
            bind-Ends _ _ _ _ (format_group 2 s1) _
              (format_group-IsFormatted 2 s1 (omega arith) (λ ws. refl))
              (λ _ s2 f2.
                bind-Ends _ _ _ _ (format_group 3 s2) _
                  (format_group-IsFormatted 3 s2 (omega arith) (λ ws. refl))
                  (λ _ s3 f3.
                    later-IsNew 3 s2 s3 (omega arith)
                      (later-IsNew 2 s1 s2 (omega arith)
                        (later-IsNew 1 s0 s1 (omega arith) (first-IsNew u s0 f0) f1) f2)
                      f3)
                  (λ h. h))
              (λ h. h))
          (λ h. h))
      (λ h. h)
