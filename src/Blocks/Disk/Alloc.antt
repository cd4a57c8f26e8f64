-- ===== src/Blocks/Disk/Alloc.antt =====
-- `get_block` of filesystem-block-manager/test.cpp on a formatted device.
use linux_cpp.Prelude.{
  ℕ, ◌+◌, ◌*◌, ◌≤◌, ◌<◌, ◌≡◌, ◌≢◌, inl, inr, refl, ap, ◌∙◌, true, false, Option, none, some, ◌==◌,
  if◌then◌else◌, if_elim, Bool-cases, ==→eq, lt→ltb, ne→==, arith,
}
use linux_cpp.Blocks.{Words, set_bit, test_bit, Found, found, out, undefined, find_next_bit}
use linux_cpp.Blocks.Bits.{test_and_set_bit_lem, test_bit-set_bit_ne}
use linux_cpp.Blocks.Scan.{AllSet}
use linux_cpp.Blocks.Find.{Finds, find_next_bit-Finds}
use linux_cpp.Blocks.Disk.{
  State, super_block, Result, done, breaks, spins, put_block, read_block, sb_bread, below_size,
  find_next_block, take_bit, group_loop, get_block_from, get_block,
}

-- a block as `sb_bread` shows it
abbrev pub view : State → ℕ → Words
view s b = if s.uptodate b then s.cache b else s.disk b

pub read_block-view : (b : ℕ) (s : State) (c : ℕ) → view (read_block b s) c ≡ view s c
unfolding read_block
read_block-view b s c =
    if_elim (λ s'. view s' c ≡ view s c) (s.uptodate b) s _ (λ _. refl)
      (λ u. elim (Bool-cases (c == b)) [
        | inl e ↦ rw (==→eq c b e) (ground (arith, u))
        | inr n ↦ rw n refl
      ])

pub read_block-cache : (b : ℕ) (s : State) → (read_block b s).cache b ≡ view s b
unfolding read_block
read_block-cache b s =
    if_elim (λ s'. s'.cache b ≡ view s b) (s.uptodate b) s _ (λ u. ground (arith, u))
      (λ u. ground (arith, u))

pub read_block-uptodate : (b : ℕ) (s : State) → (read_block b s).uptodate b ≡ true
unfolding read_block
read_block-uptodate b s =
    if_elim (λ s'. s'.uptodate b ≡ true) (s.uptodate b) s _ (λ u. u) (λ u. ground arith)

pub read_block-i_data : (b : ℕ) (s : State) → (read_block b s).i_data ≡ s.i_data
unfolding read_block
read_block-i_data b s =
    if_elim (λ s'. s'.i_data ≡ s.i_data) (s.uptodate b) s _ (λ _. refl) (λ _. refl)

pub read_block-keeps :
    (b : ℕ) (s : State) (c : ℕ) → s.uptodate c ≡ true → (read_block b s).uptodate c ≡ true
unfolding read_block
read_block-keeps b s c h =
    if_elim (λ s'. s'.uptodate c ≡ true) (s.uptodate b) s _ (λ _. h) (λ _. ground arith)

-- a write to the data of a buffer
pub put_block-view_same :
    (s : State) (b : ℕ) (ws : Words)
    → s.uptodate b ≡ true
    → view (record s { cache = put_block s.cache b ws }) b ≡ ws
put_block-view_same s b ws u = ground (arith, u)

pub put_block-view_ne :
    (s : State) (b : ℕ) (ws : Words) (c : ℕ)
    → c ≢ b
    → view (record s { cache = put_block s.cache b ws }) c ≡ view s c
put_block-view_ne s b ws c h = rw (ne→== c b h) refl

-- the descriptors of the groups have been read, group 0 has its bitmap in block 2, and the bits of its
-- last 64 blocks are clear
pub record IsReady (s : State) : Type 0 where
  pub read : s.uptodate 1 ≡ true
  pub desc : view s 1 0 ≡ 2
  pub high : (n : ℕ) → 192 ≤ n → n < 256 → test_bit n (view s 2) ≡ false

pub read_block-IsReady : (b : ℕ) (s : State) → IsReady s → IsReady (read_block b s)
read_block-IsReady b s v = record {
  read = read_block-keeps b s 1 v.read;
  desc = rw (read_block-view b s 1) v.desc;
  high = λ n l u. ap (test_bit n) (read_block-view b s 2) ∙ v.high n l u;
}

-- the state after block `n` of group 0 has been taken
pub record Took (s s' : State) (n : ℕ) : Type 0 where
  pub others : (c : ℕ) → c ≢ 2 → view s' c ≡ view s c
  pub bitmap : view s' 2 ≡ set_bit n (view s 2)
  pub inode : s'.i_data ≡ s.i_data
  pub ready : IsReady s'
  pub keeps : (c : ℕ) → s.uptodate c ≡ true → s'.uptodate c ≡ true

-- What `get_block` owes: the first block from 22 on that is free, whose bit it sets and nothing else.
-- When there is none in the first three words it shifts by 64, so that -1 is never returned.
abbrev pub Grants : State → Result (Option ℕ) → Type 0
Grants s (done (some n) s') =
    (22 ≤ n) × (n < 192) × (test_bit n (view s 2) ≡ false) × AllSet (view s 2) 22 n × Took s s' n
Grants s (done none s') = ⊥
Grants s breaks = AllSet (view s 2) 22 192
Grants s spins = ⊥

one_two : ◌≢◌ {A = ℕ} 1 2
one_two = λ e. absurd (omega arith)

apart : (k n : ℕ) → n < 192 → 192 ≤ k → k ≢ n
apart k n h l = λ e. absurd (omega arith)

take-Took :
    (s : State) (n : ℕ)
    → n < 192
    → IsReady s
    → Took s
        (record (read_block 2 s) {
          cache = put_block (read_block 2 s).cache 2 (set_bit n ((read_block 2 s).cache 2));
        })
        n
take-Took s n h v =
    let s1 = read_block 2 s in
    let v1 = read_block-IsReady 2 s v in
    let ws = set_bit n (s1.cache 2) in
    let s2 = record s1 { cache = put_block s1.cache 2 ws } in
    let bm : view s2 2 ≡ set_bit n (view s 2) =
      put_block-view_same s1 2 ws (read_block-uptodate 2 s)
      ∙ ap (set_bit n) (read_block-cache 2 s) in
    let same : (c : ℕ) → c ≢ 2 → view s2 c ≡ view s c =
      λ c d. put_block-view_ne s1 2 ws c d ∙ read_block-view 2 s c in
    record {
      others = same;
      bitmap = bm;
      inode = read_block-i_data 2 s;
      ready = record {
        read = v1.read;
        desc = ap (λ (w : Words). w 0) (same 1 one_two) ∙ v.desc;
        high = λ k l m.
            ap (test_bit k) bm ∙ test_bit-set_bit_ne n k (view s 2) (apart k n h l) ∙ v.high k l m;
      };
      keeps = read_block-keeps 2 s;
    }

group_zero : (n : ℕ) → 256 * 0 + n ≡ n
group_zero n = omega arith

take_bit-Grants :
    (s : State) (f : Found) (next : Result (Option ℕ))
    → IsReady s
    → Finds (view s 2) 256 22 f
    → f ≢ out
    → Grants s (take_bit 0 2 (read_block 2 s) f next)
unfolding take_bit
take_bit-Grants s (found n) next v (a, b, c, d) o =
    let s1 = read_block 2 s in
    let e = test_and_set_bit_lem n (s1.cache 2) in
    let free : test_bit n (s1.cache 2) ≡ false = ap (test_bit n) (read_block-cache 2 s) ∙ c in
    rw (e, free, group_zero n) (a, omega arith, c, d, take-Took s n (omega arith) v)
take_bit-Grants s out next v h o = absurd (o refl)
take_bit-Grants s undefined next v (e, a, n, low, late, high, free) o = a

never_out : (s : State) (f : Found) → IsReady s → Finds (view s 2) 256 22 f → below_size 256 f ≢ out
never_out s (found n) v (a, b, c, d) e = absurd (ground (arith, e))
never_out s out v h e =
    absurd
      (ground (arith, h 200 (omega arith) (omega arith), v.high 200 (omega arith) (omega arith)))
never_out s undefined v h e = absurd (cc)

below-Finds :
    (s : State) (f : Found) → Finds (view s 2) 256 22 f → Finds (view s 2) 256 22 (below_size 256 f)
below-Finds s (found n) (a, b, c, d) = rw (lt→ltb n 256 (omega arith)) (a, b, c, d)
below-Finds s out h = h
below-Finds s undefined h = h

-- On a formatted device `get_block` takes the first free block from 22 on in group 0, sets its bit and
-- changes no other block; when blocks 22 to 191 are all used it shifts a word by 64, which is
-- undefined, and it goes on to no other group. It always returns or meets that shift: the jump back to
-- `repeat` is never taken.
pub get_block-Grants : (s : State) → IsReady s → Grants s (get_block (super_block 0) s)
unfolding get_block get_block_from group_loop super_block sb_bread find_next_block
get_block-Grants s v =
    let f = find_next_bit ((read_block 2 s).cache 2) 256 22 in
    let h : Finds (view s 2) 256 22 f =
      rw (read_block-cache 2 s)
        (find_next_bit-Finds (view s 2) 256 22 (omega arith) (omega arith)) in
    let at_two : s.cache 1 0 ≡ 2 = ground (arith, v.desc, v.read) in
    rw at_two (take_bit-Grants s (below_size 256 f) _ v (below-Finds s f h) (never_out s f v h))
