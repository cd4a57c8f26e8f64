-- ===== src/Timer/Move.antt =====
-- What the cascades of timer-wheel/test.cpp do with the timers of a slot.
use linux_cpp.Prelude.{
  ℕ, ◌/◌, ◌%◌, ◌^◌, ◌≤◌, ◌≡◌, ◌≢◌, ◌⊎◌, refl, inl, inr, List, [], ◌∷◌, In, get_or, length-set, ◌==◌,
  Bool-cases, ==→eq, ==→ne, eq→==, ne→==,
}
use linux_cpp.Timer.{
  Timer, Base, Slot, in_tv, in_tv1, in_tv2, list_add, slot_to_move, minus64, cascade_loop, cascade1,
  cascade2, cascades,
}
use linux_cpp.Timer.Slots.{
  Holds, IsFull, list_add-new, list_add-old, list_add-IsFull, emptied, emptied-old,
}
use linux_cpp.Timer.Place.{slot_to_move-IsSlot}

abbrev pub moved_to : ℕ → Timer → Slot
moved_to j u = slot_to_move u.expires (minus64 u.expires (j % 2 ^ 32))

loop-IsFull : (ts : List Timer) (j : ℕ) (b : Base) → IsFull b → IsFull (cascade_loop ts j b)
unfolding cascade_loop
loop-IsFull [] j b f = f
loop-IsFull (t ∷ ts) j b f =
    loop-IsFull ts j (list_add b (moved_to j t) t) (list_add-IsFull b (moved_to j t) t f)

-- A timer in a slot stays there, whatever is moved.
loop-old :
    (ts : List Timer) (j : ℕ) (b : Base) (u : Timer) (s : Slot)
    → IsFull b
    → Holds b u s
    → Holds (cascade_loop ts j b) u s
unfolding cascade_loop
loop-old [] j b u s f h = h
loop-old (t ∷ ts) j b u s f h =
    loop-old ts j (list_add b (moved_to j t) t) u s (list_add-IsFull b (moved_to j t) t f) (
      list_add-old b (moved_to j t) s t u f
        (slot_to_move-IsSlot t.expires (minus64 t.expires (j % 2 ^ 32))) h)

-- A timer of the list goes to its new slot.
loop-new :
    (ts : List Timer) (j : ℕ) (b : Base) (u : Timer)
    → IsFull b
    → In u ts
    → Holds (cascade_loop ts j b) u (moved_to j u)
unfolding cascade_loop
loop-new [] j b u f h = absurd h
loop-new (t ∷ ts) j b u f (inl e) = rw (← e) (
    loop-old ts j (list_add b (moved_to j u) u) u (moved_to j u)
      (list_add-IsFull b (moved_to j u) u f)
      (list_add-new b (moved_to j u) u f
        (slot_to_move-IsSlot u.expires (minus64 u.expires (j % 2 ^ 32)))))
loop-new (t ∷ ts) j b u f (inr h) =
    loop-new ts j (list_add b (moved_to j t) t) u (list_add-IsFull b (moved_to j t) t f) h

pub empty1-IsFull : (b : Base) (i : ℕ) → IsFull b → IsFull (record b { tv1 = emptied b.tv1 i })
empty1-IsFull b i f = record {
  full = f.full;
  full1 = rw (length-set b.tv1 i []) f.full1;
  full2 = f.full2;
}

pub empty2-IsFull : (b : Base) (i : ℕ) → IsFull b → IsFull (record b { tv2 = emptied b.tv2 i })
empty2-IsFull b i f = record {
  full = f.full;
  full1 = f.full1;
  full2 = rw (length-set b.tv2 i []) f.full2;
}

pub cascade1-IsFull : (i j : ℕ) (b : Base) → IsFull b → IsFull (cascade1 i j b)
unfolding cascade1
cascade1-IsFull i j b f =
    loop-IsFull (get_or b.tv1 i []) j (record b { tv1 = emptied b.tv1 i }) (empty1-IsFull b i f)

pub cascade2-IsFull : (i j : ℕ) (b : Base) → IsFull b → IsFull (cascade2 i j b)
unfolding cascade2
cascade2-IsFull i j b f =
    loop-IsFull (get_or b.tv2 i []) j (record b { tv2 = emptied b.tv2 i }) (empty2-IsFull b i f)

-- a slot other than the one that a cascade empties
abbrev pub Other1 : ℕ → Slot → Type 0
Other1 i (in_tv k) = 0 ≤ 0
Other1 i (in_tv1 k) = i ≢ k
Other1 i (in_tv2 k) = 0 ≤ 0

abbrev pub Other2 : ℕ → Slot → Type 0
Other2 i (in_tv k) = 0 ≤ 0
Other2 i (in_tv1 k) = 0 ≤ 0
Other2 i (in_tv2 k) = i ≢ k

pub cascade1-old :
    (i j : ℕ) (b : Base) (u : Timer) (s : Slot)
    → IsFull b
    → Other1 i s
    → Holds b u s
    → Holds (cascade1 i j b) u s
unfolding cascade1
cascade1-old i j b u s f o h =
    loop-old (get_or b.tv1 i []) j (record b { tv1 = emptied b.tv1 i }) u s (empty1-IsFull b i f)
      (kept s o h)
  where
    kept : (s : Slot) → Other1 i s → Holds b u s → Holds (record b { tv1 = emptied b.tv1 i }) u s
    kept (in_tv k) o h = h
    kept (in_tv1 k) o h = emptied-old b.tv1 i k u o h
    kept (in_tv2 k) o h = h

pub cascade2-old :
    (i j : ℕ) (b : Base) (u : Timer) (s : Slot)
    → IsFull b
    → Other2 i s
    → Holds b u s
    → Holds (cascade2 i j b) u s
unfolding cascade2
cascade2-old i j b u s f o h =
    loop-old (get_or b.tv2 i []) j (record b { tv2 = emptied b.tv2 i }) u s (empty2-IsFull b i f)
      (kept s o h)
  where
    kept : (s : Slot) → Other2 i s → Holds b u s → Holds (record b { tv2 = emptied b.tv2 i }) u s
    kept (in_tv k) o h = h
    kept (in_tv1 k) o h = h
    kept (in_tv2 k) o h = emptied-old b.tv2 i k u o h

pub cascade1-new :
    (i j : ℕ) (b : Base) (u : Timer)
    → IsFull b
    → Holds b u (in_tv1 i)
    → Holds (cascade1 i j b) u (moved_to j u)
unfolding cascade1
cascade1-new i j b u f h =
    loop-new (get_or b.tv1 i []) j (record b { tv1 = emptied b.tv1 i }) u (empty1-IsFull b i f) h

pub cascade2-new :
    (i j : ℕ) (b : Base) (u : Timer)
    → IsFull b
    → Holds b u (in_tv2 i)
    → Holds (cascade2 i j b) u (moved_to j u)
unfolding cascade2
cascade2-new i j b u f h =
    loop-new (get_or b.tv2 i []) j (record b { tv2 = emptied b.tv2 i }) u (empty2-IsFull b i f) h

pub cascades_skip : (j : ℕ) (b : Base) → j % 8 ≢ 0 → cascades j b ≡ b
unfolding cascades
cascades_skip j b h = rw (ne→== (j % 8) 0 h) refl

pub cascades_one :
    (j : ℕ) (b : Base) → j % 8 ≡ 0 → j / 8 % 8 ≢ 0 → cascades j b ≡ cascade1 (j / 8 % 8) j b
unfolding cascades
cascades_one j b h h' = rw (eq→== (j % 8) 0 h, ne→== (j / 8 % 8) 0 h') refl

pub cascades_both :
    (j : ℕ) (b : Base)
    → j % 8 ≡ 0
    → j / 8 % 8 ≡ 0
    → cascades j b ≡ cascade2 (j / 64 % 4) j (cascade1 (j / 8 % 8) j b)
unfolding cascades
cascades_both j b h h' = rw (eq→== (j % 8) 0 h, eq→== (j / 8 % 8) 0 h') refl

-- the three ways of a round
abbrev pub Turn : ℕ → Type 0
Turn j = (j % 8 ≢ 0) ⊎ ((j % 8 ≡ 0) × (j / 8 % 8 ≢ 0)) ⊎ ((j % 8 ≡ 0) × (j / 8 % 8 ≡ 0))

pub turn : (j : ℕ) → Turn j
turn j = elim (Bool-cases (j % 8 == 0)) [
  | inl e ↦ elim (Bool-cases (j / 8 % 8 == 0)) [
    | inl e' ↦ inr (inr (==→eq (j % 8) 0 e, ==→eq (j / 8 % 8) 0 e'))
    | inr e' ↦ inr (inl (==→eq (j % 8) 0 e, ==→ne (j / 8 % 8) 0 e'))
  ]
  | inr e ↦ inl (==→ne (j % 8) 0 e)
]

pub cascades-IsFull : (j : ℕ) (b : Base) → IsFull b → IsFull (cascades j b)
cascades-IsFull j b f = elim (turn j) [
  | inl h ↦ rw (cascades_skip j b h) f
  | inr (inl (h, h')) ↦ rw (cascades_one j b h h') (cascade1-IsFull (j / 8 % 8) j b f)
  | inr (inr (h, h')) ↦ rw (cascades_both j b h h') (
      cascade2-IsFull (j / 64 % 4) j (cascade1 (j / 8 % 8) j b) (cascade1-IsFull (j / 8 % 8) j b f))
]
