-- ===== src/BlockQueue/Sleepers.antt =====
-- How many threads sleep in `get` and in `put`, in block_queue/block_queue.h.
use linux_cpp.Prelude.{ℕ, zero, suc, ◌+◌, ◌≤◌, ◌≡◌, refl, List, [], ◌∷◌, get_or, set, arith}
use linux_cpp.BlockQueue.{
  Thread, putting, put_sleeps, getting, get_sleeps, finished, wake_getters, wake_putters,
}

abbrev pub asleep_get : Thread → ℕ
asleep_get get_sleeps = 1
asleep_get (put_sleeps v) = 0
asleep_get (putting v) = 0
asleep_get getting = 0
asleep_get finished = 0

abbrev pub asleep_put : Thread → ℕ
asleep_put (put_sleeps v) = 1
asleep_put get_sleeps = 0
asleep_put (putting v) = 0
asleep_put getting = 0
asleep_put finished = 0

pub number : (Thread → ℕ) → List Thread → ℕ
number f [] = 0
number f (t ∷ ts) = f t + number f ts

pub number-set :
    (f : Thread → ℕ) (ts : List Thread) (i : ℕ) (t : Thread)
    → number f (set ts i t) ≤ number f ts + f t
unfolding number
number-set f [] i t = omega arith
number-set f (u ∷ ts) zero t = omega arith
number-set f (u ∷ ts) (suc i) t = omega (arith, number-set f ts i t)

pub number-get_or :
    (f : Thread → ℕ) (ts : List Thread) (i : ℕ)
    → f finished ≡ 0
    → f (get_or ts i finished) ≤ number f ts
unfolding number
number-get_or f [] i h = omega (arith, h)
number-get_or f (u ∷ ts) zero h = omega arith
number-get_or f (u ∷ ts) (suc i) h = omega (arith, number-get_or f ts i h)

pub woken_getters : (ts : List Thread) → number asleep_get (wake_getters ts) ≡ 0
unfolding number wake_getters
woken_getters [] = refl
woken_getters (putting v ∷ ts) = omega (arith, woken_getters ts)
woken_getters (put_sleeps v ∷ ts) = omega (arith, woken_getters ts)
woken_getters (getting ∷ ts) = omega (arith, woken_getters ts)
woken_getters (get_sleeps ∷ ts) = omega (arith, woken_getters ts)
woken_getters (finished ∷ ts) = omega (arith, woken_getters ts)

pub getters_put : (ts : List Thread) → number asleep_put (wake_getters ts) ≡ number asleep_put ts
unfolding number wake_getters
getters_put [] = refl
getters_put (putting v ∷ ts) = omega (arith, getters_put ts)
getters_put (put_sleeps v ∷ ts) = omega (arith, getters_put ts)
getters_put (getting ∷ ts) = omega (arith, getters_put ts)
getters_put (get_sleeps ∷ ts) = omega (arith, getters_put ts)
getters_put (finished ∷ ts) = omega (arith, getters_put ts)

pub woken_putters : (ts : List Thread) → number asleep_put (wake_putters ts) ≡ 0
unfolding number wake_putters
woken_putters [] = refl
woken_putters (putting v ∷ ts) = omega (arith, woken_putters ts)
woken_putters (put_sleeps v ∷ ts) = omega (arith, woken_putters ts)
woken_putters (getting ∷ ts) = omega (arith, woken_putters ts)
woken_putters (get_sleeps ∷ ts) = omega (arith, woken_putters ts)
woken_putters (finished ∷ ts) = omega (arith, woken_putters ts)

pub putters_get : (ts : List Thread) → number asleep_get (wake_putters ts) ≡ number asleep_get ts
unfolding number wake_putters
putters_get [] = refl
putters_get (putting v ∷ ts) = omega (arith, putters_get ts)
putters_get (put_sleeps v ∷ ts) = omega (arith, putters_get ts)
putters_get (getting ∷ ts) = omega (arith, putters_get ts)
putters_get (get_sleeps ∷ ts) = omega (arith, putters_get ts)
putters_get (finished ∷ ts) = omega (arith, putters_get ts)

-- threads that are about to call `put` or `get`
abbrev pub AllStart : List Thread → Type 0
AllStart [] = Unit
AllStart (putting v ∷ ts) = AllStart ts
AllStart (getting ∷ ts) = AllStart ts
AllStart (put_sleeps v ∷ ts) = ⊥
AllStart (get_sleeps ∷ ts) = ⊥
AllStart (finished ∷ ts) = ⊥

pub none_asleep :
    (ts : List Thread) → AllStart ts → (number asleep_get ts ≡ 0) × (number asleep_put ts ≡ 0)
unfolding number
none_asleep [] h = (refl, refl)
none_asleep (putting v ∷ ts) h =
    let (a, b) = none_asleep ts h in (omega (arith, a), omega (arith, b))
none_asleep (getting ∷ ts) h = let (a, b) = none_asleep ts h in (omega (arith, a), omega (arith, b))
none_asleep (put_sleeps v ∷ ts) h = absurd h
none_asleep (get_sleeps ∷ ts) h = absurd h
none_asleep (finished ∷ ts) h = absurd h
