-- ===== src/Pool.antt =====
-- thread_pool/thread_pool.h: the pool as threads that take one step at a time: the workers
-- (`_M_work` with `_M_get_task`), the producer (`_M_produce` with `_M_add_task`) and the thread that
-- calls `stop`. Whoever runs next is the scheduler's choice. A step of a thread that waits for the
-- mutex, for a notification or for the end of a thread is `waits`. A task is its number.
pub mod Weigh
pub mod Inv
pub mod ByWorker
pub mod ByOthers
pub mod Safety
pub mod Stop
mod Tests
use linux_cpp.Prelude.{
  ℕ, zero, suc, ◌+◌, Bool, true, false, ◌&&◌, ◌||◌, not, List, [], ◌∷◌, ◌++◌, length, get_or, set,
  replicate, ◌==◌, if◌then◌else◌, ◌≡◌,
}

-- Where a worker stands. In `testing`, `blocking` and `passed` it holds the mutex: it evaluates the
-- predicate of `wait`, has found it false, or has left `wait`.
pub data Worker : Type 0 where
  looping locking testing blocking sleeping passed exited : Worker
  running : ℕ → Worker

-- the same for the producer, with the task that it has created
pub data Producer : Type 0 where
  creating done_producing : Producer
  wants tries gives_up waits_for goes_on : ℕ → Producer

-- where the thread stands that calls `stop`
pub data Stopper : Type 0 where
  idle flag_cleared one_notified joining cleaning stopped : Stopper

pub record Pool : Type 0 where
  pub flag : Bool
  pub locked : Bool
  pub queue : List ℕ
  pub next_id : ℕ
  pub workers : List Worker
  pub producer : Producer
  pub stopper : Stopper
  pub done : List ℕ
  pub leaked : List ℕ

pub data Outcome : Type 0 where
  moved : Pool → Outcome
  waits : Outcome
  undefined : Outcome

-- `start` of a pool with `n` workers
pub start : ℕ → Pool
start n = record {
  flag = true;
  locked = false;
  queue = [];
  next_id = 0;
  workers = replicate n looping;
  producer = creating;
  stopper = idle;
  done = [];
  leaked = [];
}

abbrev pub null : List ℕ → Bool
null [] = true
null (x ∷ xs) = false

-- `_M_cond_empty.notify_all()`
pub wake : List Worker → List Worker
wake [] = []
wake (sleeping ∷ ws) = locking ∷ wake ws
wake (w ∷ ws) = w ∷ wake ws

-- `_M_cond_full.notify_all()`
abbrev pub wake_producer : Producer → Producer
wake_producer (waits_for t) = wants t
wake_producer p = p

abbrev pub at : Pool → ℕ → Worker → Pool
at s i w = record s { workers = set s.workers i w }

-- `_M_get_task` from the end of `wait` on
pub get_task : Pool → ℕ → List ℕ → Outcome
get_task s i [] = undefined
get_task s i (t ∷ ts) = moved (record s {
  queue = ts;
  locked = false;
  producer = wake_producer s.producer;
  workers = set s.workers i (running t);
})

-- a step of the worker with the number `i`, which stands at the given place
pub worker_step : Pool → ℕ → Worker → Outcome
worker_step s i looping = moved (at s i (if s.flag then locking else exited))
worker_step s i locking =
    if s.locked then waits else moved (record (at s i testing) { locked = true })
worker_step s i testing =
    moved (at s i (if not s.flag || not (null s.queue) then passed else blocking))
worker_step s i blocking = moved (record (at s i sleeping) { locked = false })
worker_step s i sleeping = waits
worker_step s i passed =
    if s.flag then get_task s i s.queue else moved (record (at s i exited) { locked = false })
worker_step s i (running t) = moved (record (at s i looping) { done = t ∷ s.done })
worker_step s i exited = waits

-- a step of the producer
pub producer_step : ℕ → Pool → Producer → Outcome
producer_step cap s creating =
    if s.flag
    then moved (record s { producer = wants s.next_id; next_id = suc s.next_id })
    else moved (record s { producer = done_producing })
producer_step cap s (wants t) =
    if s.locked then waits else moved (record s { producer = tries t; locked = true })
producer_step cap s (tries t) = moved (record s {
  producer = if not s.flag || not (length s.queue == cap) then goes_on t else gives_up t;
})
producer_step cap s (gives_up t) = moved (record s { producer = waits_for t; locked = false })
producer_step cap s (waits_for t) = waits
producer_step cap s (goes_on t) =
    if s.flag
    then moved (record s {
      queue = s.queue ++ (t ∷ []);
      workers = wake s.workers;
      producer = creating;
      locked = false;
    })
    else moved (record s { leaked = t ∷ s.leaked; producer = creating; locked = false })
producer_step cap s done_producing = waits

abbrev pub has_exited : Worker → Bool
has_exited exited = true
has_exited w = false

pub all_exited : List Worker → Bool
all_exited [] = true
all_exited (w ∷ ws) = has_exited w && all_exited ws

abbrev pub is_done : Producer → Bool
is_done done_producing = true
is_done p = false

-- one round of the loop of `_M_clean_task`
pub clean : Pool → List ℕ → Pool
clean s [] = record s { stopper = stopped }
clean s (t ∷ ts) = record s { queue = ts; done = t ∷ s.done }

-- a step of `_M_stop`
pub stop_step : Pool → Stopper → Outcome
stop_step s idle = moved (record s { flag = false; stopper = flag_cleared })
stop_step s flag_cleared = moved (record s { workers = wake s.workers; stopper = one_notified })
stop_step s one_notified =
    moved (record s { producer = wake_producer s.producer; stopper = joining })
stop_step s joining =
    if all_exited s.workers && is_done s.producer
    then moved (record s { stopper = cleaning })
    else waits
stop_step s cleaning = moved (clean s s.queue)
stop_step s stopped = waits

-- the thread that the scheduler lets run
pub data Who : Type 0 where
  worker : ℕ → Who
  the_producer the_stopper : Who

pub step : ℕ → Who → Pool → Outcome
step cap (worker i) s = worker_step s i (get_or s.workers i exited)
step cap the_producer s = producer_step cap s s.producer
step cap the_stopper s = stop_step s s.stopper

-- the state after the outcome of a step from `s`
abbrev pub after : Outcome → Pool → Pool
after (moved u) s = u
after waits s = s
after undefined s = s

-- The threads run one step each in the given order. A thread that waits stays where it is.
pub run_steps : ℕ → List Who → Pool → Pool
run_steps cap [] s = s
run_steps cap (w ∷ ws) s = run_steps cap ws (after (step cap w s) s)

-- The states that the pool can come to, from `start n` on. A worker or the producer that sleeps may
-- also wake up with no notification.
pub data Reach (n cap : ℕ) : Pool → Type 0 where
  started : Reach n cap (start n)
  then_step : {s u : Pool} (w : Who) → Reach n cap s → step cap w s ≡ moved u → Reach n cap u
  wakes_up :
      {s : Pool} (i : ℕ)
      → Reach n cap s
      → get_or s.workers i exited ≡ sleeping
      → Reach n cap (at s i locking)
  producer_wakes_up :
      {s : Pool} → Reach n cap s → Reach n cap (record s { producer = wake_producer s.producer })
