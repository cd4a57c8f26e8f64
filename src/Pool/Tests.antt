-- ===== src/Pool/Tests.antt =====
-- Runs of the pool of thread_pool/thread_pool.h, and the theorems at concrete states.
use linux_cpp.Prelude.{◌≤◌, ◌≡◌, ◌≢◌, refl, true, List, [], ◌∷◌, length, ltb}
use linux_cpp.Pool.{
  passed, wants, Stopper, idle, joining, Pool, waits, undefined, wake, Who, worker, the_producer,
  the_stopper, step, worker_step, producer_step, stop_step, get_task, start, all_exited, clean,
  Reach, started, then_step, run_steps,
}
use linux_cpp.Pool.Inv.{holders, one_if, places}
use linux_cpp.Pool.Safety.{Reach-safe, Reach-places}
use linux_cpp.Pool.Stop.{stop_hangs}

-- the producer has pushed task 0 and has created task 1; the worker has passed the test of `wait`
abbrev busy : Pool
busy = record {
  flag = true;
  locked = true;
  queue = 0 ∷ [];
  next_id = 2;
  workers = passed ∷ [];
  producer = wants 1;
  stopper = idle;
  done = [];
  leaked = [];
}

busy-Reach : Reach 1 1 busy
unfolding step worker_step producer_step start wake
busy-Reach =
    let s0 : Reach 1 1 (start 1) = started in
    let s1 = then_step the_producer s0 refl in
    let s2 = then_step the_producer s1 refl in
    let s3 = then_step (worker 0) s2 refl in
    let s4 = then_step the_producer s3 refl in
    let s5 = then_step the_producer s4 refl in
    let s6 = then_step (worker 0) s5 refl in
    let s7 = then_step the_producer s6 refl in then_step (worker 0) s7 refl

-- the worker takes the task, runs it and is back at its loop
takes_a_task : (run_steps 1 (worker 0 ∷ worker 0 ∷ []) busy).done ≡ 0 ∷ []
unfolding run_steps step worker_step get_task
takes_a_task = refl

waits_for_the_mutex : step 1 the_producer busy ≡ waits
unfolding step producer_step
waits_for_the_mutex = refl

-- the stopping thread returns once both threads are at their ends
stops :
    (run_steps 1
      (worker 0
        ∷ worker 0
        ∷ the_stopper
        ∷ the_stopper
        ∷ the_stopper
        ∷ worker 0
        ∷ worker 0
        ∷ the_producer
        ∷ the_producer
        ∷ the_producer
        ∷ the_producer
        ∷ the_stopper
        ∷ the_stopper
        ∷ [])
      busy).stopper
    ≡ Stopper.stopped
unfolding run_steps step worker_step producer_step stop_step get_task wake all_exited clean
stops = refl

Reach-safe_example :
    (length busy.queue ≤ 1) × (holders busy ≤ 1) × ((w : Who) → step 1 w busy ≢ undefined)
Reach-safe_example = Reach-safe busy-Reach

Reach-places_example : places 0 busy ≡ one_if (ltb 0 2)
Reach-places_example = Reach-places busy-Reach 0

stop_hangs_example :
    (s : Pool) × Reach 3 20 s × ((ws : List Who) → (run_steps 20 ws s).stopper ≡ joining)
stop_hangs_example = stop_hangs 2 20
