-- ===== src/Blocks/Disk/Files.antt =====
-- A file on the formatted device of filesystem-block-manager/test.cpp: its logical blocks, asked for in
-- any order and any number of times.
use linux_cpp.Prelude.{
  ℕ, zero, suc, ◌+◌, ◌*◌, ◌%◌, ◌≤◌, ◌<◌, ◌≡◌, ◌≢◌, ◌↔◌, inl, inr, refl, sym, ap, ◌∙◌, Bool, false,
  List, [], ◌∷◌, length, get_or, bit, set_one, bit-nothing, arith,
}
use linux_cpp.Blocks.{Words, set_bit, test_bit}
use linux_cpp.Blocks.Bits.{test_bit-set_bit_ne}
use linux_cpp.Blocks.Disk.{
  State, super_block, Result, bind, format, blank_state, get_blocks, get_all,
}
use linux_cpp.Blocks.Disk.Slots.{Slot, direct, root, mid, leaf, IsSlot, follow, value, Inv}
use linux_cpp.Blocks.Disk.Room.{free_bits, room}
use linux_cpp.Blocks.Disk.Fill.{Ends, bind-Ends, Ends-map}
use linux_cpp.Blocks.Disk.Mapping.{slot_of, slot_of-IsSlot, get_blocks-Filled}
use linux_cpp.Blocks.Disk.Format.{first_bits, IsNew, format-IsNew}

late_bit : (n : ℕ) → 192 ≤ n → test_bit n first_bits ≡ false
unfolding first_bits test_bit
late_bit n l =
    test_bit-set_bit_ne 3 n _ (λ e. absurd (omega (arith, l, e)))
    ∙ test_bit-set_bit_ne 2 n _ (λ e. absurd (omega (arith, l, e)))
    ∙ test_bit-set_bit_ne 1 n _ (λ e. absurd (omega (arith, l, e)))
    ∙ test_bit-set_bit_ne 0 n _ (λ e. absurd (omega (arith, l, e)))
    ∙ test_bit-set_bit_ne 0 n _ (λ e. absurd (omega (arith, l, e)))
    ∙ bit-nothing (n % 64)

new_value : (s : State) → IsNew s → (t : Slot) → value s t ≡ 0
unfolding value follow
new_value s v (direct i) = ap (λ (w : Words). w i) v.no_entry
new_value s v root = ap (λ (w : Words). w 4) v.no_entry
new_value s v (mid j) = ap (λ (w : Words). follow s (w 4) j) v.no_entry
new_value s v (leaf j k) = ap (λ (w : Words). follow s (follow s (w 4) j) k) v.no_entry

pub new-Inv : (s : State) → IsNew s → Inv s
new-Inv s v = record {
  ready = record {
    read = v.read;
    desc = v.desc;
    high = λ n l u. ap (test_bit n) v.bitmap ∙ late_bit n l;
  };
  low = λ t i h. absurd (h (new_value s v t));
  high = λ t i h. absurd (h (new_value s v t));
  used = λ t i h. absurd (h (new_value s v t));
  distinct = λ t u i j h. absurd (h (new_value s v t));
  blank = λ n l u f i. ap (λ (w : Words). w i) (v.zeros n l u);
}

new-room : (s : State) → IsNew s → room s ≡ 170
unfolding room free_bits first_bits set_bit test_bit bit set_one
new-room s v = ap (free_bits 170 22) v.bitmap

-- the entries of the logical blocks `is` have the blocks `bs`
abbrev pub Have : State → List ℕ → List ℕ → Type 0
Have s [] [] = Unit
Have s [] (b ∷ bs) = ⊥
Have s (i ∷ is) [] = ⊥
Have s (i ∷ is) (b ∷ bs) = (value s (slot_of i) ≡ b) × (b ≢ 0) × Have s is bs

abbrev pub AllBelow : ℕ → List ℕ → Type 0
AllBelow n [] = Unit
AllBelow n (i ∷ is) = (i < n) × AllBelow n is

get_all-Have :
    (is : List ℕ) (s : State)
    → Inv s
    → 3 * length is ≤ room s
    → AllBelow 16388 is
    → Ends
        (λ bs s'.
          Inv s' × Have s' is bs × ((u : Slot) → IsSlot u → value s u ≢ 0 → value s' u ≡ value s u))
        ⊥
        (get_all (super_block 0) is s)
unfolding get_all
get_all-Have [] s v h a = (v, tt, λ u i n. refl)
get_all-Have (i ∷ is) s v h a =
    bind-Ends _ _ _ _ (get_blocks (super_block 0) i s) _ (get_blocks-Filled i s v)
      (λ b s1 f.
        bind-Ends _ _ _ _ (get_all (super_block 0) is s1) _
          (get_all-Have is s1 f.inv (omega (arith, f.less, h)) a.1)
          (λ bs s2 (w, x, k). (
            w,
            (
              k (slot_of i) (slot_of-IsSlot i) (λ z. f.some_block (sym f.there ∙ z)) ∙ f.there,
              f.some_block,
              x,
            ),
            λ u j n. k u j (λ z. n (sym (f.kept u j n) ∙ z)) ∙ f.kept u j n,
          ))
          (λ q. q))
      (λ q. elim q [ inl x ↦ omega (arith, x, h) | inr x ↦ omega (arith, x, a.0) ])

-- the logical block of an entry
index_of : Slot → ℕ
index_of (direct i) = i
index_of root = 0
index_of (mid j) = 0
index_of (leaf j k) = 4 + j * 128 + k

index_of-slot_of : (i : ℕ) → index_of (slot_of i) ≡ i
unfolding index_of
index_of-slot_of i = ground arith

Have-get :
    (s : State) (is bs : List ℕ) (j : ℕ)
    → Have s is bs
    → j < length is
    → (value s (slot_of (get_or is j 0)) ≡ get_or bs j 0) × (get_or bs j 0 ≢ 0)
Have-get s [] [] j h l = absurd (omega arith)
Have-get s [] (b ∷ bs) j h l = absurd h
Have-get s (i ∷ is) [] j h l = absurd h
Have-get s (i ∷ is) (b ∷ bs) zero h l = (h.0, h.1)
Have-get s (i ∷ is) (b ∷ bs) (suc j) h l = Have-get s is bs j h.2 (omega arith)

-- For each two calls, the same block of the device exactly for the same logical block, and no block of
-- the device but one from 22 to 191.
abbrev pub IsMapping : List ℕ → List ℕ → Type 0
IsMapping is bs =
    (j : ℕ)
    → j < length is
    → (22 ≤ get_or bs j 0)
      × (get_or bs j 0 < 192)
      × ((k : ℕ)
          → k < length is
          → (get_or bs j 0 ≡ get_or bs k 0) ↔ (get_or is j 0 ≡ get_or is k 0))

Have-IsMapping : (s : State) (is bs : List ℕ) → Inv s → Have s is bs → IsMapping is bs
Have-IsMapping s is bs v h j l =
    let (e, n) = Have-get s is bs j h l in
    let t = slot_of (get_or is j 0) in
    let i = slot_of-IsSlot (get_or is j 0) in
    let z : value s t ≢ 0 = λ q. n (sym e ∙ q) in
    (
      omega (arith, e, v.low t i z),
      omega (arith, e, v.high t i z),
      λ k m.
          let (e', n') = Have-get s is bs k h m in
          let u = slot_of (get_or is k 0) in
          (
            λ q.
                sym (index_of-slot_of (get_or is j 0))
                ∙ ap index_of (v.distinct t u i (slot_of-IsSlot (get_or is k 0)) z (e ∙ q ∙ sym e'))
                ∙ index_of-slot_of (get_or is k 0),
            λ q. sym e ∙ ap (λ x. value s (slot_of x)) q ∙ e',
          ),
    )

-- a call that returns
abbrev pub Returns : {A : Type 0} → (A → Type 0) → Result A → Type 0
Returns P r = Ends (λ a s. P a) ⊥ r

-- Whatever `new` leaves in the buffers: on a freshly formatted device, up to 56 calls of `get_blocks`
-- for logical blocks of a new file below 16388, in any order and with repetitions, all return. Two of
-- them return the same block of the device exactly when they ask for the same logical block, and
-- every block returned is one from 22 to 191, so none that holds a descriptor or a bitmap.
pub get_all-IsMapping :
    (u : ℕ → Bool) (is : List ℕ)
    → length is ≤ 56
    → AllBelow 16388 is
    → Returns
        (IsMapping is)
        (bind (format 4 0 (blank_state u)) (λ _ s. get_all (super_block 0) is s))
get_all-IsMapping u is l a =
    bind-Ends _ _ _ _ (format 4 0 (blank_state u)) _ (format-IsNew u)
      (λ _ s v.
        Ends-map _ _ _ _ (get_all (super_block 0) is s)
          (get_all-Have is s (new-Inv s v) (omega (arith, l, new-room s v)) a)
          (λ bs s' (w, x, k). Have-IsMapping s' is bs w x) (λ q. q))
      (λ q. q)
