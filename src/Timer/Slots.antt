-- ===== src/Timer/Slots.antt =====
-- Which timers the slots of timer-wheel/test.cpp hold when one is added and when a slot is emptied.
use linux_cpp.Prelude.{
  ℕ, ◌<◌, ◌≡◌, ◌≢◌, refl, inl, inr, List, [], ◌∷◌, In, length, get_or, set, length-set,
  get_or-set_self, get_or-set_ne, ◌==◌, Bool-cases, ==→eq, ==→ne, arith,
}
use linux_cpp.Timer.{Timer, Base, Slot, in_tv, in_tv1, in_tv2, add_at, list_add}

abbrev pub in_slot : Base → Slot → List Timer
in_slot b (in_tv i) = get_or b.tv i []
in_slot b (in_tv1 i) = get_or b.tv1 i []
in_slot b (in_tv2 i) = get_or b.tv2 i []

abbrev pub Holds : Base → Timer → Slot → Type 0
Holds b u s = In u (in_slot b s)

-- Every slot of the source is there.
pub record IsFull (b : Base) : Type 0 where
  pub full : length b.tv ≡ 8
  pub full1 : length b.tv1 ≡ 8
  pub full2 : length b.tv2 ≡ 4

abbrev pub IsSlot : Slot → Type 0
IsSlot (in_tv i) = i < 8
IsSlot (in_tv1 i) = i < 8
IsSlot (in_tv2 i) = i < 4

-- Writing to one slot leaves the others as they are.
other_slot :
    (slots : List (List Timer)) (i j : ℕ) (ts : List Timer) (u : Timer)
    → i ≢ j
    → In u (get_or slots j [])
    → In u (get_or (set slots i ts) j [])
other_slot slots i j ts u ne h = rw (get_or-set_ne slots i j ts [] ne) h

add_at-new :
    (slots : List (List Timer)) (i : ℕ) (t : Timer)
    → i < length slots
    → In t (get_or (add_at slots i t) i [])
add_at-new slots i t h = rw (get_or-set_self slots i (t ∷ get_or slots i []) [] h) (inl refl)

add_at-old :
    (slots : List (List Timer)) (i j : ℕ) (t u : Timer)
    → i < length slots
    → In u (get_or slots j [])
    → In u (get_or (add_at slots i t) j [])
add_at-old slots i j t u l h = elim (Bool-cases (i == j)) [
  | inl e ↦
      let same : i ≡ j = ==→eq i j e in
      let there : In u (get_or slots i []) = rw same h in
      rw (← same, get_or-set_self slots i (t ∷ get_or slots i []) [] l) (inr there)
  | inr e ↦ other_slot slots i j (t ∷ get_or slots i []) u (==→ne i j e) h
]

pub list_add-new :
    (b : Base) (s : Slot) (t : Timer) → IsFull b → IsSlot s → Holds (list_add b s t) t s
unfolding list_add
list_add-new b (in_tv i) t f h = add_at-new b.tv i t (omega (arith, f.full))
list_add-new b (in_tv1 i) t f h = add_at-new b.tv1 i t (omega (arith, f.full1))
list_add-new b (in_tv2 i) t f h = add_at-new b.tv2 i t (omega (arith, f.full2))

pub list_add-old :
    (b : Base) (s s' : Slot) (t u : Timer)
    → IsFull b
    → IsSlot s
    → Holds b u s'
    → Holds (list_add b s t) u s'
unfolding list_add
list_add-old b (in_tv i) (in_tv j) t u f l h = add_at-old b.tv i j t u (omega (arith, f.full)) h
list_add-old b (in_tv i) (in_tv1 j) t u f l h = h
list_add-old b (in_tv i) (in_tv2 j) t u f l h = h
list_add-old b (in_tv1 i) (in_tv j) t u f l h = h
list_add-old b (in_tv1 i) (in_tv1 j) t u f l h = add_at-old b.tv1 i j t u (omega (arith, f.full1)) h
list_add-old b (in_tv1 i) (in_tv2 j) t u f l h = h
list_add-old b (in_tv2 i) (in_tv j) t u f l h = h
list_add-old b (in_tv2 i) (in_tv1 j) t u f l h = h
list_add-old b (in_tv2 i) (in_tv2 j) t u f l h = add_at-old b.tv2 i j t u (omega (arith, f.full2)) h

pub list_add-IsFull : (b : Base) (s : Slot) (t : Timer) → IsFull b → IsFull (list_add b s t)
unfolding list_add
list_add-IsFull b (in_tv i) t f = record {
  full = rw (length-set b.tv i (t ∷ get_or b.tv i [])) f.full;
  full1 = f.full1;
  full2 = f.full2;
}
list_add-IsFull b (in_tv1 i) t f = record {
  full = f.full;
  full1 = rw (length-set b.tv1 i (t ∷ get_or b.tv1 i [])) f.full1;
  full2 = f.full2;
}
list_add-IsFull b (in_tv2 i) t f = record {
  full = f.full;
  full1 = f.full1;
  full2 = rw (length-set b.tv2 i (t ∷ get_or b.tv2 i [])) f.full2;
}

-- Where a slot is emptied, the other slots of its array keep their timers.
abbrev pub emptied : List (List Timer) → ℕ → List (List Timer)
emptied slots i = set slots i []

pub emptied-old :
    (slots : List (List Timer)) (i j : ℕ) (u : Timer)
    → i ≢ j
    → In u (get_or slots j [])
    → In u (get_or (emptied slots i) j [])
emptied-old slots i j u ne h = other_slot slots i j [] u ne h
