-- ===== src/BlockQueue/Tests.antt =====
-- A run of the queue of block_queue/block_queue.h, and the theorem at a concrete schedule.
use linux_cpp.Prelude.{◌≡◌, refl, List, [], ◌∷◌}
use linux_cpp.BlockQueue.{
  Thread, putting, getting, finished, make, wake_getters, wake_putters, put, take_front, get,
  step_of, step, Event, runs, event, run_events,
}
use linux_cpp.BlockQueue.Schedule.{Holds, run_events-Holds}

abbrev threads : List Thread
threads = getting ∷ putting 5 ∷ putting 6 ∷ []

-- the getter sleeps, 5 goes in and wakes it, 6 finds the queue full, and 5 comes out
abbrev schedule : List Event
schedule = runs 0 ∷ runs 1 ∷ runs 2 ∷ runs 0 ∷ []

five_comes_out : run_events schedule (make 1 threads) ≡ record {
  values = [];
  cap = 1;
  threads = finished ∷ finished ∷ putting 6 ∷ [];
  arrived = 5 ∷ [];
  left = 5 ∷ [];
}
unfolding run_events event step step_of put get take_front wake_getters wake_putters make
five_comes_out = refl

run_events-Holds_example : Holds (run_events schedule (make 1 threads))
run_events-Holds_example = run_events-Holds 1 threads schedule tt
