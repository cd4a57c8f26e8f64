-- ===== src/Timer/Fire.antt =====
-- The main loop of timer-wheel/test.cpp calls every timer in time.
use linux_cpp.Prelude.{
  ℕ, zero, suc, ◌+◌, ◌%◌, ◌^◌, ◌≤◌, ◌<◌, ◌≡◌, ◌⊎◌, refl, ap, inl, inr, List, [], ◌∷◌, In,
  In-append_left, In-append_right, length-set, ◌==◌, Bool-cases, ==→eq, ==→ne, arith,
}
use linux_cpp.Timer.{
  Timer, Base, Slot, in_tv, in_tv1, in_tv2, init_tv_base, list_add, slot_to_add, minus64, add_timer,
  add_all, cascades, round, run, calls_at,
}
use linux_cpp.Timer.Slots.{Holds, IsFull, list_add-new, list_add-old, list_add-IsFull, emptied-old}
use linux_cpp.Timer.Place.{IsPlaced, IsSettled, due, slot_to_add-IsSlot, slot_to_add-IsPlaced}
use linux_cpp.Timer.Move.{cascades-IsFull}
use linux_cpp.Timer.Settle.{cascades-Settles}

pub round-IsFull : (j : ℕ) (b : Base) → IsFull b → IsFull (round j b).1
unfolding round
round-IsFull j b f =
    let f' = cascades-IsFull j b f in
    record {
      full = rw (length-set (cascades j b).tv (j % 8) []) f'.full;
      full1 = f'.full1;
      full2 = f'.full2;
    }

-- A round calls a timer that is due, and leaves any other where it has to stand for the next round.
abbrev Served : ℕ → ℕ → Timer → List Timer × Base → Type 0
Served j d u (fired, b) =
    ((j ≡ d) × In u fired)
    ⊎ ((suc j ≤ d) × ((s : Slot) × Holds b u s × IsPlaced (suc j) u.expires d s))

settled-Served :
    (j d : ℕ) (b : Base) (u : Timer) (s : Slot)
    → j ≤ d
    → Holds (cascades j b) u s
    → IsSettled j u.expires d s
    → Served j d u (round j b)
unfolding round
settled-Served j d b u (in_tv i) l h p = elim (Bool-cases (j == d)) [
  | inl e ↦ let now = ==→eq j d e in let index : j % 8 ≡ i = ground arith in inl (now, rw index h)
  | inr e ↦
      let later = ==→ne j d e in
      inr (
        ground arith,
        (in_tv i, emptied-old (cascades j b).tv (j % 8) i u (ground arith) h, ground arith),
      )
]
settled-Served j d b u (in_tv1 i) l h p = inr (ground arith, (in_tv1 i, h, p))
settled-Served j d b u (in_tv2 i) l h p = inr (ground arith, (in_tv2 i, h, p))

round-Served :
    (j d : ℕ) (b : Base) (u : Timer) (s : Slot)
    → IsFull b
    → j < 2 ^ 32
    → u.expires < 2 ^ 64
    → j ≤ d
    → Holds b u s
    → IsPlaced j u.expires d s
    → Served j d u (round j b)
round-Served j d b u s f w w' l h p =
    let (s', h', p') = cascades-Settles j b u d s f w w' h p in settled-Served j d b u s' l h' p'

In-calls_at :
    (j : ℕ) (u : Timer) (ts : List Timer)
    → In u ts
    → In (record { time = j; timer = u }) (calls_at j ts)
In-calls_at j u [] h = absurd h
In-calls_at j u (t ∷ ts) (inl e) = inl (ap (λ v. record { time = j; timer = v }) e)
In-calls_at j u (t ∷ ts) (inr h) = inr (In-calls_at j u ts h)

run-calls :
    (rounds j d : ℕ) (b : Base) (u : Timer) (s : Slot)
    → IsFull b
    → j + rounds < 2 ^ 32
    → u.expires < 2 ^ 64
    → j ≤ d
    → d < j + rounds
    → Holds b u s
    → IsPlaced j u.expires d s
    → In (record { time = d; timer = u }) (run rounds j b).0
unfolding run
run-calls zero j d b u s f w w' l m h p = absurd (omega arith)
run-calls (suc rounds) j d b u s f w w' l m h p =
    let r = round j b in
    let rest = (run rounds (suc j) r.1).0 in
    elim (round-Served j d b u s f (omega arith) w' l h p) [
      | inl (now, called) ↦
          In-append_left (record { time = d; timer = u }) (calls_at j r.0) rest
            (rw (← now) (In-calls_at j u r.0 called))
      | inr (later, (s', h', p')) ↦
          In-append_right (record { time = d; timer = u }) (calls_at j r.0) rest
            (run-calls rounds (suc j) d r.1 u s' (round-IsFull j b f) (omega arith) w' later
              (omega arith) h' p')
    ]

pub add_all-IsFull : (ts : List Timer) (b : Base) → IsFull b → IsFull (add_all ts b)
unfolding add_all add_timer
add_all-IsFull [] b f = f
add_all-IsFull (t ∷ ts) b f =
    let s = slot_to_add (minus64 t.expires 0) in
    add_all-IsFull ts (list_add b s t) (list_add-IsFull b s t f)

add_all-old :
    (ts : List Timer) (b : Base) (u : Timer) (s : Slot)
    → IsFull b
    → Holds b u s
    → Holds (add_all ts b) u s
unfolding add_all add_timer
add_all-old [] b u s f h = h
add_all-old (t ∷ ts) b u s f h =
    let s' = slot_to_add (minus64 t.expires 0) in
    add_all-old ts (list_add b s' t) u s (list_add-IsFull b s' t f)
      (list_add-old b s' s t u f (slot_to_add-IsSlot (minus64 t.expires 0)) h)

add_all-new :
    (ts : List Timer) (b : Base) (u : Timer)
    → IsFull b
    → In u ts
    → Holds (add_all ts b) u (slot_to_add (minus64 u.expires 0))
unfolding add_all add_timer
add_all-new [] b u f h = absurd h
add_all-new (t ∷ ts) b u f (inl e) =
    let s = slot_to_add (minus64 u.expires 0) in
    rw (← e) (
      add_all-old ts (list_add b s u) u s (list_add-IsFull b s u f)
        (list_add-new b s u f (slot_to_add-IsSlot (minus64 u.expires 0))))
add_all-new (t ∷ ts) b u f (inr h) =
    let s = slot_to_add (minus64 t.expires 0) in
    add_all-new ts (list_add b s t) u (list_add-IsFull b s t f) h

pub init-IsFull : IsFull init_tv_base
unfolding init_tv_base
init-IsFull = record { full = refl; full1 = refl; full2 = refl }

-- Of the timers that `main` adds to an empty wheel, the loop that begins at a time `start` below 8
-- calls each one whose time falls within its rounds: at the time at which it expires or, where that
-- lies before `start`, 8 later.
pub run-due :
    (ts : List Timer) (u : Timer) (start rounds : ℕ)
    → In u ts
    → start < 8
    → u.expires < 2 ^ 64
    → start + rounds < 2 ^ 32
    → due start u.expires < start + rounds
    → In
        (record { time = due start u.expires; timer = u })
        (run rounds start (add_all ts init_tv_base)).0
run-due ts u start rounds h l w w' d =
    run-calls rounds start (due start u.expires) (add_all ts init_tv_base) u
      (slot_to_add (minus64 u.expires 0)) (add_all-IsFull ts init_tv_base init-IsFull) w' w
      (ground arith) d (add_all-new ts init_tv_base u init-IsFull h)
      (slot_to_add-IsPlaced start u.expires l w)
