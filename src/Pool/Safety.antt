-- ===== src/Pool/Safety.antt =====
-- What no schedule can break in the pool of thread_pool/thread_pool.h.
use linux_cpp.Prelude.{ℕ, ◌≤◌, ◌≡◌, ◌≢◌, refl, length, get_or, ltb, arith}
use linux_cpp.Pool.{
  exited, Pool, Outcome, moved, waits, undefined, Who, worker, the_producer, the_stopper, step,
  Reach, started, then_step, wakes_up, producer_wakes_up,
}
use linux_cpp.Pool.Inv.{Inv, holders, one_if, places, Ensures, start-Inv}
use linux_cpp.Pool.ByWorker.{worker-Inv, wakes_up-Inv}
use linux_cpp.Pool.ByOthers.{producer_step-Inv, woken_producer-Inv, stop_step-Inv}

pub step-Inv : (cap : ℕ) (w : Who) (s : Pool) → Inv cap s → Ensures (Inv cap) (step cap w s)
unfolding step
step-Inv cap (worker i) s v = worker-Inv cap s i (get_or s.workers i exited) refl v
step-Inv cap the_producer s v = producer_step-Inv cap s s.producer refl v
step-Inv cap the_stopper s v = stop_step-Inv cap s s.stopper refl v

pub Reach-Inv : {n cap : ℕ} {s : Pool} → Reach n cap s → Inv cap s
Reach-Inv {n} {cap} started = start-Inv n cap
Reach-Inv {n} {cap} (then_step {s} w r e) = rw e at (step-Inv cap w s (Reach-Inv r))
Reach-Inv {n} {cap} (wakes_up {s} i r e) = wakes_up-Inv cap s i e (Reach-Inv r)
Reach-Inv {n} {cap} (producer_wakes_up {s} r) = woken_producer-Inv cap s (Reach-Inv r)

defined : (cap : ℕ) (o : Outcome) → Ensures (Inv cap) o → o ≢ undefined
defined cap (moved s) h e = absurd (cc)
defined cap waits h e = absurd (cc)
defined cap undefined h e = absurd h

-- In every state that the pool can come to the queue is within its bound, and at most one thread is
-- between the lock and the unlock of the mutex, and whichever thread runs next, its step is defined:
-- `front` is never called on an empty queue.
pub Reach-safe :
    {n cap : ℕ} {s : Pool}
    → Reach n cap s
    → (length s.queue ≤ cap) × (holders s ≤ 1) × ((w : Who) → step cap w s ≢ undefined)
Reach-safe {n} {cap} {s} r =
    let v = Reach-Inv r in
    (v.fits, ground (arith, v.one), λ w. defined cap (step cap w s) (step-Inv cap w s v))

-- In every state that the pool can come to, each task created so far is in exactly one place: in the
-- queue, with the producer, at one worker that runs it, run and destroyed, or lost in `_M_add_task`;
-- and no task that is not created yet is in any place.
pub Reach-places :
    {n cap : ℕ} {s : Pool} → Reach n cap s → (t : ℕ) → places t s ≡ one_if (ltb t s.next_id)
Reach-places r t = (Reach-Inv r).kept t
