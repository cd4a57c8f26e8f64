-- ===== src/BlockQueue/Schedule.antt =====
-- The queue of block_queue/block_queue.h under every schedule.
use linux_cpp.Prelude.{
  ℕ, ◌≤◌, ◌<◌, ◌≡◌, ◌≢◌, refl, ap, List, [], ◌∷◌, ◌++◌, length, get_or, ◌==◌, if_elim, ==→ne, arith,
}
use linux_cpp.BlockQueue.{
  Thread, put_sleeps, get_sleeps, finished, BlockQueue, make, Event, run_events,
}
use linux_cpp.BlockQueue.Sleepers.{
  asleep_get, asleep_put, number, number-get_or, AllStart, none_asleep,
}
use linux_cpp.BlockQueue.Inv.{Inv, run_events-Inv}

make-Inv : (cap : ℕ) (ts : List Thread) → AllStart ts → Inv (make cap ts)
unfolding make
make-Inv cap ts h =
    let (a, b) = none_asleep ts h in
    record {
      some_room =
          if_elim (λ n. 0 < n) (cap == 0) 1000 cap (λ e. omega arith)
            (λ e. omega (arith, ==→ne cap 0 e));
      fits = omega arith;
      order = refl;
      getters = λ n. absurd (n a);
      putters = λ n. absurd (n b);
    }

-- What holds of a queue whatever has happened: the values that were popped and then those in the queue
-- are the values that were pushed, in order; the queue is within its bound; a thread sleeps in `get`
-- only while the queue is empty, and in `put` only while it is full.
abbrev pub Holds : BlockQueue → Type 0
Holds q =
    (q.arrived ≡ q.left ++ q.values)
    × (length q.values ≤ q.cap)
    × ((i : ℕ) → get_or q.threads i finished ≡ get_sleeps → q.values ≡ [])
    × ((i v : ℕ) → get_or q.threads i finished ≡ put_sleeps v → length q.values ≡ q.cap)
    × ((i j v : ℕ)
        → get_or q.threads i finished ≡ get_sleeps
        → get_or q.threads j finished ≢ put_sleeps v)

no_values : (vs : List ℕ) → length vs ≡ 0 → vs ≡ []
no_values [] h = refl
no_values (v ∷ vs) h = absurd (omega arith)

Inv-Holds : (q : BlockQueue) → Inv q → Holds q
Inv-Holds q w = (
  w.order,
  w.fits,
  λ i e. no_values q.values (w.getters (sleeping_getter i e)),
  λ i v e. w.putters (sleeping_putter i v e),
  λ i j v e e'. absurd (
      omega
        (arith, w.getters (sleeping_getter i e), w.putters (sleeping_putter j v e'), w.some_room)),
)
  where
    sleeping_getter :
        (i : ℕ) → get_or q.threads i finished ≡ get_sleeps → number asleep_get q.threads ≢ 0
    sleeping_getter i e =
        λ z. absurd (omega (arith, ap asleep_get e, number-get_or asleep_get q.threads i refl, z))

    sleeping_putter :
        (i v : ℕ) → get_or q.threads i finished ≡ put_sleeps v → number asleep_put q.threads ≢ 0
    sleeping_putter i v e =
        λ z. absurd (omega (arith, ap asleep_put e, number-get_or asleep_put q.threads i refl, z))

-- Any number of threads that each call `put` or `get` once, on a new queue of any capacity, in any order
-- of their steps and with any wake-ups: the values come out in the order in which they went in, the
-- queue stays within its bound, a thread sleeps in `get` only while the queue is empty and in `put`
-- only while it is full, and so no two threads sleep that could serve each other.
pub run_events-Holds :
    (cap : ℕ) (ts : List Thread) (es : List Event)
    → AllStart ts
    → Holds (run_events es (make cap ts))
run_events-Holds cap ts es h =
    Inv-Holds (run_events es (make cap ts)) (run_events-Inv es (make cap ts) (make-Inv cap ts h))
