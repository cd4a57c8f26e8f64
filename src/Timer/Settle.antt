-- ===== src/Timer/Settle.antt =====
-- The cascades of timer-wheel/test.cpp bring every timer to where it has to stand.
use linux_cpp.Prelude.{ℕ, ◌/◌, ◌%◌, ◌^◌, ◌<◌, ◌≡◌, inl, inr, ◌==◌, Bool-cases, ==→eq, ==→ne, arith}
use linux_cpp.Timer.{Timer, Base, Slot, in_tv, in_tv1, in_tv2, slot_to_move, cascade1, cascades}
use linux_cpp.Timer.Slots.{Holds, IsFull}
use linux_cpp.Timer.Place.{
  IsPlaced, IsSettled, moved1-IsSettled, moved2-IsSettled, stays1-IsSettled, stays2-IsSettled,
}
use linux_cpp.Timer.Move.{
  moved_to, Other2, cascade1-IsFull, cascade1-old, cascade2-old, cascade1-new, cascade2-new,
  cascades_skip, cascades_one, cascades_both, turn,
}

-- After the cascades of a round a timer stands where it is settled.
abbrev pub Settles : ℕ → Base → Timer → ℕ → Type 0
Settles j b u d = (s : Slot) × Holds b u s × IsSettled j u.expires d s

-- a slot other than the one that `cascade1` empties, also when `cascade2` follows
after1 :
    (j : ℕ) (b : Base) (u : Timer) (d : ℕ) (s : Slot)
    → IsFull b
    → j % 8 ≡ 0
    → Holds (cascade1 (j / 8 % 8) j b) u s
    → (j / 8 % 8 ≡ 0 → Other2 (j / 64 % 4) s)
    → IsSettled j u.expires d s
    → Settles j (cascades j b) u d
after1 j b u d s f z h o p = elim (Bool-cases (j / 8 % 8 == 0)) [
  | inl e ↦
      let z' = ==→eq (j / 8 % 8) 0 e in
      rw (cascades_both j b z z') (
        s,
        cascade2-old (j / 64 % 4) j (cascade1 (j / 8 % 8) j b) u s
            (cascade1-IsFull (j / 8 % 8) j b f) (o z') h,
        p,
      )
  | inr e ↦ rw (cascades_one j b z (==→ne (j / 8 % 8) 0 e)) (s, h, p)
]

-- A timer that leaves `tv1` in time goes to `tv`.
moved1-Other2 :
    (j : ℕ) (u : Timer)
    → j < 2 ^ 32
    → u.expires < 2 ^ 64
    → j % 8 ≡ 0
    → IsPlaced j u.expires u.expires (in_tv1 (j / 8 % 8))
    → Other2 (j / 64 % 4) (moved_to j u)
unfolding slot_to_move
moved1-Other2 j u a b c p = ground arith

settle_tv :
    (j : ℕ) (b : Base) (u : Timer) (d i : ℕ)
    → IsFull b
    → Holds b u (in_tv i)
    → IsPlaced j u.expires d (in_tv i)
    → Settles j (cascades j b) u d
settle_tv j b u d i f h p = elim (Bool-cases (j % 8 == 0)) [
  | inl e ↦
      after1 j b u d (in_tv i) f (==→eq (j % 8) 0 e)
        (cascade1-old (j / 8 % 8) j b u (in_tv i) f (omega arith) h) (λ z. omega arith) p
  | inr e ↦ rw (cascades_skip j b (==→ne (j % 8) 0 e)) (in_tv i, h, p)
]

settle_tv1 :
    (j : ℕ) (b : Base) (u : Timer) (d i : ℕ)
    → IsFull b
    → j < 2 ^ 32
    → u.expires < 2 ^ 64
    → Holds b u (in_tv1 i)
    → IsPlaced j u.expires d (in_tv1 i)
    → Settles j (cascades j b) u d
settle_tv1 j b u d i f w w' h p = elim (Bool-cases (j % 8 == 0)) [
  | inr e ↦
      let skip = ==→ne (j % 8) 0 e in
      rw (cascades_skip j b skip) (in_tv1 i, h, stays1-IsSettled j u.expires d i (inl skip) p)
  | inl e ↦
      let z = ==→eq (j % 8) 0 e in
      elim (Bool-cases (j / 8 % 8 == i)) [
        | inl c ↦
            let same : j / 8 % 8 ≡ i = ==→eq (j / 8 % 8) i c in
            let on_time : d ≡ u.expires = p.1 in
            let here : IsPlaced j u.expires u.expires (in_tv1 (j / 8 % 8)) = ground arith in
            let held : Holds b u (in_tv1 (j / 8 % 8)) = rw same h in
            rw on_time (
              after1 j b u u.expires (moved_to j u) f z (cascade1-new (j / 8 % 8) j b u f held)
                (λ q. moved1-Other2 j u w w' z here) (moved1-IsSettled j u.expires w w' z here))
        | inr c ↦
            let ne = ==→ne (j / 8 % 8) i c in
            after1 j b u d (in_tv1 i) f z (cascade1-old (j / 8 % 8) j b u (in_tv1 i) f ne h)
              (λ q. omega arith) (stays1-IsSettled j u.expires d i (inr ne) p)
      ]
]

settle_tv2 :
    (j : ℕ) (b : Base) (u : Timer) (d i : ℕ)
    → IsFull b
    → j < 2 ^ 32
    → u.expires < 2 ^ 64
    → Holds b u (in_tv2 i)
    → IsPlaced j u.expires d (in_tv2 i)
    → Settles j (cascades j b) u d
settle_tv2 j b u d i f w w' h p = elim (turn j) [
  | inl skip ↦
      rw (cascades_skip j b skip)
        (in_tv2 i, h, stays2-IsSettled j u.expires d i (inl (ground arith)) p)
  | inr (inl (z, z')) ↦ rw (cascades_one j b z z') (
    in_tv2 i,
    cascade1-old (j / 8 % 8) j b u (in_tv2 i) f (omega arith) h,
    stays2-IsSettled j u.expires d i (inl (ground arith)) p,
  )
  | inr (inr (z, z')) ↦
      let b1 = cascade1 (j / 8 % 8) j b in
      let f1 = cascade1-IsFull (j / 8 % 8) j b f in
      let h1 = cascade1-old (j / 8 % 8) j b u (in_tv2 i) f (omega arith) h in
      rw (cascades_both j b z z') (elim (Bool-cases (j / 64 % 4 == i)) [
        | inl c ↦
            let same : j / 64 % 4 ≡ i = ==→eq (j / 64 % 4) i c in
            let on_time : d ≡ u.expires = p.1 in
            let here : IsPlaced j u.expires u.expires (in_tv2 (j / 64 % 4)) = ground arith in
            let held : Holds b1 u (in_tv2 (j / 64 % 4)) = rw same h1 in
            rw on_time (
              moved_to j u,
              cascade2-new (j / 64 % 4) j b1 u f1 held,
              moved2-IsSettled j u.expires w w' (omega arith) here,
            )
        | inr c ↦
            let ne = ==→ne (j / 64 % 4) i c in
            (
              in_tv2 i,
              cascade2-old (j / 64 % 4) j b1 u (in_tv2 i) f1 ne h1,
              stays2-IsSettled j u.expires d i (inr ne) p,
            )
      ])
]

-- The cascades of a round settle a timer that is placed.
pub cascades-Settles :
    (j : ℕ) (b : Base) (u : Timer) (d : ℕ) (s : Slot)
    → IsFull b
    → j < 2 ^ 32
    → u.expires < 2 ^ 64
    → Holds b u s
    → IsPlaced j u.expires d s
    → Settles j (cascades j b) u d
cascades-Settles j b u d (in_tv i) f w w' h p = settle_tv j b u d i f h p
cascades-Settles j b u d (in_tv1 i) f w w' h p = settle_tv1 j b u d i f w w' h p
cascades-Settles j b u d (in_tv2 i) f w w' h p = settle_tv2 j b u d i f w w' h p
