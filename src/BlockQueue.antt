-- ===== src/BlockQueue.antt =====
-- block_queue/block_queue.h: a queue of bounded length on which `put` and `get` wait. A thread makes one
-- call. It holds the mutex from the lock to its end, or to the wait that finds its predicate false and
-- gives the mutex up; so a step of a thread is the part of its call from one of these points to the
-- next. Which thread runs next is the scheduler's choice.
pub mod Sleepers
pub mod Inv
pub mod Schedule
mod Tests
use linux_cpp.Prelude.{
  ℕ, zero, suc, ◌+◌, List, [], ◌∷◌, ◌++◌, length, get_or, set, ◌==◌, if◌then◌else◌, ◌≡◌, Bool, true,
  false,
}

-- Where a thread stands: before or after the lock of `put` or `get`, asleep in the wait, or at the end.
pub data Thread : Type 0 where
  putting put_sleeps : ℕ → Thread
  getting get_sleeps finished : Thread

-- `arrived` has all values that were pushed, in order, and `left` all that were popped
pub record BlockQueue : Type 0 where
  pub values : List ℕ
  pub cap : ℕ
  pub threads : List Thread
  pub arrived : List ℕ
  pub left : List ℕ

-- `BlockQueue( size_t cap )`
pub make : ℕ → List Thread → BlockQueue
make cap ts = record {
  values = [];
  cap = if cap == 0 then 1000 else cap;
  threads = ts;
  arrived = [];
  left = [];
}

abbrev pub full : BlockQueue → Bool
full q = length q.values == q.cap

-- `_empty_cond.notify_all()`
pub wake_getters : List Thread → List Thread
wake_getters [] = []
wake_getters (get_sleeps ∷ ts) = getting ∷ wake_getters ts
wake_getters (t ∷ ts) = t ∷ wake_getters ts

-- `_full_cond.notify_all()`
pub wake_putters : List Thread → List Thread
wake_putters [] = []
wake_putters (put_sleeps v ∷ ts) = putting v ∷ wake_putters ts
wake_putters (t ∷ ts) = t ∷ wake_putters ts

pub put : ℕ → ℕ → BlockQueue → BlockQueue
put i v q = if full q then record q { threads = set q.threads i (put_sleeps v) } else record q {
  values = q.values ++ (v ∷ []);
  threads = wake_getters (set q.threads i finished);
  arrived = q.arrived ++ (v ∷ []);
}

-- `get` with its wait, which finds the queue empty or not
pub take_front : ℕ → List ℕ → BlockQueue → BlockQueue
take_front i [] q = record q { threads = set q.threads i get_sleeps }
take_front i (v ∷ vs) q = record q {
  values = vs;
  threads = wake_putters (set q.threads i finished);
  left = q.left ++ (v ∷ []);
}

pub get : ℕ → BlockQueue → BlockQueue
get i q = take_front i q.values q

-- a step of the thread `i`; one that is asleep or at its end does nothing
pub step_of : ℕ → Thread → BlockQueue → BlockQueue
step_of i (putting v) q = put i v q
step_of i getting q = get i q
step_of i (put_sleeps v) q = q
step_of i get_sleeps q = q
step_of i finished q = q

pub step : ℕ → BlockQueue → BlockQueue
step i q = step_of i (get_or q.threads i finished) q

-- a sleeping thread that wakes up, for whatever reason
abbrev pub awake : Thread → Thread
awake (put_sleeps v) = putting v
awake get_sleeps = getting
awake (putting v) = putting v
awake getting = getting
awake finished = finished

pub wake_up : ℕ → BlockQueue → BlockQueue
wake_up i q = record q { threads = set q.threads i (awake (get_or q.threads i finished)) }

-- what happens next: a thread runs, or wakes up with no notification
pub data Event : Type 0 where
  runs wakes : ℕ → Event

pub event : Event → BlockQueue → BlockQueue
event (runs i) q = step i q
event (wakes i) q = wake_up i q

pub run_events : List Event → BlockQueue → BlockQueue
run_events [] q = q
run_events (e ∷ es) q = run_events es (event e q)
