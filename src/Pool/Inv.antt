-- ===== src/Pool/Inv.antt =====
-- What holds in each state that the pool of thread_pool/thread_pool.h can come to.
use linux_cpp.Prelude.{
  ℕ, ◌+◌, ◌≤◌, ◌<◌, ◌≡◌, refl, Bool, true, false, List, [], ◌∷◌, ◌++◌, length, ltb, ◌==◌, arith,
}
use linux_cpp.Pool.{
  Producer, creating, done_producing, wants, tries, gives_up, waits_for, goes_on, Stopper, idle,
  Pool, start, Outcome, moved, waits, undefined,
}
use linux_cpp.Pool.Weigh.{weigh, holds, passes, runs, weigh-replicate}

abbrev pub producer_holds : Producer → ℕ
producer_holds (tries t) = 1
producer_holds (gives_up t) = 1
producer_holds (goes_on t) = 1
producer_holds creating = 0
producer_holds done_producing = 0
producer_holds (wants t) = 0
producer_holds (waits_for t) = 0

-- how many threads are between the lock and the unlock of the mutex
abbrev pub holders : Pool → ℕ
holders s = weigh holds s.workers + producer_holds s.producer

abbrev pub one_if : Bool → ℕ
one_if true = 1
one_if false = 0

abbrev pub count : ℕ → List ℕ → ℕ
count t [] = 0
count t (u ∷ us) = one_if (u == t) + count t us

abbrev pub carries : ℕ → Producer → ℕ
carries t (wants u) = one_if (u == t)
carries t (tries u) = one_if (u == t)
carries t (gives_up u) = one_if (u == t)
carries t (waits_for u) = one_if (u == t)
carries t (goes_on u) = one_if (u == t)
carries t creating = 0
carries t done_producing = 0

-- in how many places the task `t` is
abbrev pub places : ℕ → Pool → ℕ
places t s =
    count t s.queue
    + count t s.done
    + count t s.leaked
    + weigh (runs t) s.workers
    + carries t s.producer

abbrev pub HasRoom : ℕ → List ℕ → Producer → Type 0
HasRoom cap q (goes_on t) = length q < cap
HasRoom cap q creating = Unit
HasRoom cap q done_producing = Unit
HasRoom cap q (wants t) = Unit
HasRoom cap q (tries t) = Unit
HasRoom cap q (gives_up t) = Unit
HasRoom cap q (waits_for t) = Unit

abbrev pub is_idle : Stopper → Bool
is_idle idle = true
is_idle s = false

pub record Inv (cap : ℕ) (s : Pool) : Type 0 where
  pub fits : length s.queue ≤ cap
  pub one : holders s ≡ one_if s.locked
  pub some_left : s.flag ≡ true → 0 < weigh passes s.workers → 0 < length s.queue
  pub room : s.flag ≡ true → HasRoom cap s.queue s.producer
  pub kept : (t : ℕ) → places t s ≡ one_if (ltb t s.next_id)
  pub flagged : is_idle s.stopper ≡ s.flag

-- The outcome is not undefined, and `P` holds of the state after a move.
abbrev pub Ensures : (Pool → Type 0) → Outcome → Type 0
Ensures P (moved s) = P s
Ensures P waits = Unit
Ensures P undefined = ⊥

pub count-append : (t : ℕ) (us vs : List ℕ) → count t (us ++ vs) ≡ count t us + count t vs
count-append t [] vs = omega arith
count-append t (u ∷ us) vs = omega (arith, count-append t us vs)

pub start-Inv : (n cap : ℕ) → Inv cap (start n)
unfolding start
start-Inv n cap = record {
  fits = omega arith;
  one = omega (arith, weigh-replicate holds refl n);
  some_left = λ e h. absurd (omega (arith, weigh-replicate passes refl n));
  room = λ e. tt;
  kept = λ t. ground (arith, weigh-replicate (runs t) refl n);
  flagged = refl;
}
