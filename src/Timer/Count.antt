-- ===== src/Timer/Count.antt =====
-- No timer of timer-wheel/test.cpp is lost and none is called twice: the numbers add up.
use linux_cpp.Prelude.{
  ℕ, zero, suc, ◌+◌, ◌/◌, ◌%◌, ◌^◌, ◌<◌, ◌≡◌, refl, ap, ◌∙◌, inl, inr, List, [], ◌∷◌, length,
  length-append, get_or, set, arith,
}
use linux_cpp.Timer.{
  Timer, Base, Slot, in_tv, in_tv1, in_tv2, init_tv_base, list_add, slot_to_add, minus64, add_timer,
  add_all, cascade_loop, cascade1, cascade2, cascades, round, run, calls_at,
}
use linux_cpp.Timer.Slots.{IsFull, IsSlot, list_add-IsFull}
use linux_cpp.Timer.Place.{slot_to_add-IsSlot, slot_to_move-IsSlot}
use linux_cpp.Timer.Move.{
  moved_to, empty1-IsFull, empty2-IsFull, cascade1-IsFull, cascades_skip, cascades_one,
  cascades_both, turn, cascades-IsFull,
}
use linux_cpp.Timer.Fire.{round-IsFull, add_all-IsFull, init-IsFull}

total_of : List (List Timer) → ℕ
total_of [] = 0
total_of (ts ∷ slots) = length ts + total_of slots

-- how many timers the wheel holds
pub total : Base → ℕ
unfolding total_of
total b = total_of b.tv + total_of b.tv1 + total_of b.tv2

total_of-set :
    (slots : List (List Timer)) (i : ℕ) (ts : List Timer)
    → i < length slots
    → total_of (set slots i ts) + length (get_or slots i []) ≡ total_of slots + length ts
unfolding total_of
total_of-set [] i ts h = absurd (omega arith)
total_of-set (us ∷ slots) zero ts h = omega arith
total_of-set (us ∷ slots) (suc i) ts h = omega (arith, total_of-set slots i ts (omega arith))

list_add-total :
    (b : Base) (s : Slot) (t : Timer) → IsFull b → IsSlot s → total (list_add b s t) ≡ suc (total b)
unfolding list_add total
list_add-total b (in_tv i) t f h =
    omega (arith, total_of-set b.tv i (t ∷ get_or b.tv i []) (omega (arith, f.full)))
list_add-total b (in_tv1 i) t f h =
    omega (arith, total_of-set b.tv1 i (t ∷ get_or b.tv1 i []) (omega (arith, f.full1)))
list_add-total b (in_tv2 i) t f h =
    omega (arith, total_of-set b.tv2 i (t ∷ get_or b.tv2 i []) (omega (arith, f.full2)))

loop-total :
    (ts : List Timer) (j : ℕ) (b : Base)
    → IsFull b
    → total (cascade_loop ts j b) ≡ length ts + total b
unfolding cascade_loop
loop-total [] j b f = omega arith
loop-total (t ∷ ts) j b f =
    let s = moved_to j t in
    omega (
      arith,
      loop-total ts j (list_add b s t) (list_add-IsFull b s t f),
      list_add-total b s t f (slot_to_move-IsSlot t.expires (minus64 t.expires (j % 2 ^ 32))),
    )

cascade1-total : (i j : ℕ) (b : Base) → i < 8 → IsFull b → total (cascade1 i j b) ≡ total b
unfolding cascade1 total
cascade1-total i j b h f = omega (
  arith,
  loop-total (get_or b.tv1 i []) j (record b { tv1 = set b.tv1 i [] }) (empty1-IsFull b i f),
  total_of-set b.tv1 i [] (omega (arith, f.full1)),
)

cascade2-total : (i j : ℕ) (b : Base) → i < 4 → IsFull b → total (cascade2 i j b) ≡ total b
unfolding cascade2 total
cascade2-total i j b h f = omega (
  arith,
  loop-total (get_or b.tv2 i []) j (record b { tv2 = set b.tv2 i [] }) (empty2-IsFull b i f),
  total_of-set b.tv2 i [] (omega (arith, f.full2)),
)

cascades-total : (j : ℕ) (b : Base) → IsFull b → total (cascades j b) ≡ total b
cascades-total j b f =
    let first = cascade1-total (j / 8 % 8) j b (omega arith) f in
    elim (turn j) [
      | inl h ↦ rw (cascades_skip j b h) refl
      | inr (inl (h, h')) ↦ rw (cascades_one j b h h') first
      | inr (inr (h, h')) ↦ rw (cascades_both j b h h') (
          cascade2-total (j / 64 % 4) j (cascade1 (j / 8 % 8) j b) (omega arith)
            (cascade1-IsFull (j / 8 % 8) j b f)
          ∙ first)
    ]

round-total : (j : ℕ) (b : Base) → IsFull b → length (round j b).0 + total (round j b).1 ≡ total b
unfolding round total
round-total j b f =
    let b' = cascades j b in
    let f' = cascades-IsFull j b f in
    omega (arith, cascades-total j b f, total_of-set b'.tv (j % 8) [] (omega (arith, f'.full)))

length-calls_at : (j : ℕ) (ts : List Timer) → length (calls_at j ts) ≡ length ts
length-calls_at j [] = refl
length-calls_at j (t ∷ ts) = ap suc (length-calls_at j ts)

run-total :
    (rounds j : ℕ) (b : Base)
    → IsFull b
    → length (run rounds j b).0 + total (run rounds j b).1 ≡ total b
unfolding run
run-total zero j b f = omega arith
run-total (suc rounds) j b f =
    let r = round j b in
    omega (
      arith,
      length-append (calls_at j r.0) (run rounds (suc j) r.1).0,
      length-calls_at j r.0,
      round-total j b f,
      run-total rounds (suc j) r.1 (round-IsFull j b f),
    )

add_all-total : (ts : List Timer) (b : Base) → IsFull b → total (add_all ts b) ≡ length ts + total b
unfolding add_all add_timer
add_all-total [] b f = omega arith
add_all-total (t ∷ ts) b f =
    let s = slot_to_add (minus64 t.expires 0) in
    omega (
      arith,
      add_all-total ts (list_add b s t) (list_add-IsFull b s t f),
      list_add-total b s t f (slot_to_add-IsSlot (minus64 t.expires 0)),
    )

init-total : total init_tv_base ≡ 0
unfolding total total_of init_tv_base
init-total = refl

-- The timers called in any number of rounds from any time on, and those that are left in the wheel,
-- are together as many as `main` added.
pub run-count :
    (ts : List Timer) (rounds start : ℕ)
    → length (run rounds start (add_all ts init_tv_base)).0
        + total (run rounds start (add_all ts init_tv_base)).1
      ≡ length ts
run-count ts rounds start =
    let b = add_all ts init_tv_base in
    omega (
      arith,
      run-total rounds start b (add_all-IsFull ts init_tv_base init-IsFull),
      add_all-total ts init_tv_base init-IsFull,
      init-total,
    )
