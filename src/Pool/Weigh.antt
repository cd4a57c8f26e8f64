-- ===== src/Pool/Weigh.antt =====
-- Sums over the workers of thread_pool/thread_pool.h: how many of them hold the mutex, have left
-- `wait`, or run a given task.
use linux_cpp.Prelude.{
  ℕ, zero, suc, ◌+◌, ◌≤◌, ◌≡◌, refl, false, List, [], ◌∷◌, get_or, set, replicate, ◌==◌,
  if◌then◌else◌, arith,
}
use linux_cpp.Pool.{
  Worker, looping, locking, testing, blocking, sleeping, passed, exited, running, wake, has_exited,
}

pub weigh : (Worker → ℕ) → List Worker → ℕ
weigh f [] = 0
weigh f (w ∷ ws) = f w + weigh f ws

-- a worker that holds the mutex
abbrev pub holds : Worker → ℕ
holds testing = 1
holds blocking = 1
holds passed = 1
holds looping = 0
holds locking = 0
holds sleeping = 0
holds exited = 0
holds (running t) = 0

-- a worker that has left `wait` and still holds the mutex
abbrev pub passes : Worker → ℕ
passes passed = 1
passes testing = 0
passes blocking = 0
passes looping = 0
passes locking = 0
passes sleeping = 0
passes exited = 0
passes (running t) = 0

-- a worker that runs the task `t`
abbrev pub runs : ℕ → Worker → ℕ
runs t (running u) = if u == t then 1 else 0
runs t testing = 0
runs t blocking = 0
runs t looping = 0
runs t locking = 0
runs t sleeping = 0
runs t exited = 0
runs t passed = 0

pub weigh-set :
    (f : Worker → ℕ) (ws : List Worker) (i : ℕ) (p w : Worker)
    → get_or ws i exited ≡ p
    → has_exited p ≡ false
    → weigh f (set ws i w) + f p ≡ weigh f ws + f w
unfolding weigh
weigh-set f [] i p w e h = ground arith
weigh-set f (v ∷ ws) zero p w e h = rw (← e) (omega arith)
weigh-set f (v ∷ ws) (suc i) p w e h = omega (arith, weigh-set f ws i p w e h)

pub weigh-wake :
    (f : Worker → ℕ) → f sleeping ≡ f locking → (ws : List Worker) → weigh f (wake ws) ≡ weigh f ws
unfolding weigh wake
weigh-wake f e [] = refl
weigh-wake f e (sleeping ∷ ws) = omega (arith, weigh-wake f e ws)
weigh-wake f e (looping ∷ ws) = omega (arith, weigh-wake f e ws)
weigh-wake f e (locking ∷ ws) = omega (arith, weigh-wake f e ws)
weigh-wake f e (testing ∷ ws) = omega (arith, weigh-wake f e ws)
weigh-wake f e (blocking ∷ ws) = omega (arith, weigh-wake f e ws)
weigh-wake f e (passed ∷ ws) = omega (arith, weigh-wake f e ws)
weigh-wake f e (exited ∷ ws) = omega (arith, weigh-wake f e ws)
weigh-wake f e (running t ∷ ws) = omega (arith, weigh-wake f e ws)

pub passes-holds : (ws : List Worker) → weigh passes ws ≤ weigh holds ws
unfolding weigh
passes-holds [] = omega arith
passes-holds (sleeping ∷ ws) = omega (arith, passes-holds ws)
passes-holds (looping ∷ ws) = omega (arith, passes-holds ws)
passes-holds (locking ∷ ws) = omega (arith, passes-holds ws)
passes-holds (testing ∷ ws) = omega (arith, passes-holds ws)
passes-holds (blocking ∷ ws) = omega (arith, passes-holds ws)
passes-holds (passed ∷ ws) = omega (arith, passes-holds ws)
passes-holds (exited ∷ ws) = omega (arith, passes-holds ws)
passes-holds (running t ∷ ws) = omega (arith, passes-holds ws)

pub weigh-replicate : (f : Worker → ℕ) → f looping ≡ 0 → (n : ℕ) → weigh f (replicate n looping) ≡ 0
unfolding weigh
weigh-replicate f e zero = refl
weigh-replicate f e (suc n) = omega (arith, e, weigh-replicate f e n)

-- A worker that stands at `p` is in the sum.
pub weigh-get_or :
    (f : Worker → ℕ) (ws : List Worker) (i : ℕ) (p : Worker)
    → get_or ws i exited ≡ p
    → has_exited p ≡ false
    → f p ≤ weigh f ws
unfolding weigh
weigh-get_or f [] i p e h = ground arith
weigh-get_or f (v ∷ ws) zero p e h = rw (← e) (omega arith)
weigh-get_or f (v ∷ ws) (suc i) p e h = omega (arith, weigh-get_or f ws i p e h)
