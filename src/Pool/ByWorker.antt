-- ===== src/Pool/ByWorker.antt =====
-- A step of a worker of thread_pool/thread_pool.h keeps what holds of the pool, and is defined: the
-- queue is not empty where it takes a task.
use linux_cpp.Prelude.{
  ℕ, ◌+◌, ◌≤◌, ◌<◌, ◌≡◌, ◌⊎◌, inl, inr, refl, ap, Bool, true, false, not, ◌||◌, List, [], ◌∷◌,
  length, get_or, set, Bool-cases, if_elim, arith,
}
use linux_cpp.Pool.{
  Worker, looping, locking, testing, blocking, sleeping, passed, exited, running, Producer,
  creating, done_producing, wants, tries, gives_up, waits_for, goes_on, wake_producer, Pool, moved,
  waits, has_exited, null, at, get_task, worker_step,
}
use linux_cpp.Pool.Weigh.{weigh, holds, passes, runs, weigh-set, weigh-get_or, passes-holds}
use linux_cpp.Pool.Inv.{Inv, producer_holds, HasRoom, carries, Ensures}

-- the sums after worker `i`, which stands at `p`, goes to `w`
record Sums (s : Pool) (i : ℕ) (p w : Worker) : Type 0 where
  holding : weigh holds (set s.workers i w) + holds p ≡ weigh holds s.workers + holds w
  passing : weigh passes (set s.workers i w) + passes p ≡ weigh passes s.workers + passes w
  running_it :
      (t : ℕ) → weigh (runs t) (set s.workers i w) + runs t p ≡ weigh (runs t) s.workers + runs t w
  fewer : weigh passes (set s.workers i w) ≤ weigh holds (set s.workers i w)
  held : holds p ≤ weigh holds s.workers
  passed_by : passes p ≤ weigh passes s.workers

sums :
    (s : Pool) (i : ℕ) (p w : Worker)
    → get_or s.workers i exited ≡ p
    → has_exited p ≡ false
    → Sums s i p w
sums s i p w e h = record {
  holding = weigh-set holds s.workers i p w e h;
  passing = weigh-set passes s.workers i p w e h;
  running_it = λ t. weigh-set (runs t) s.workers i p w e h;
  fewer = passes-holds (set s.workers i w);
  held = weigh-get_or holds s.workers i p e h;
  passed_by = weigh-get_or passes s.workers i p e h;
}

at-Inv :
    (cap : ℕ) (s : Pool) (i : ℕ) (p w : Worker)
    → Inv cap s
    → Sums s i p w
    → holds p ≡ holds w
    → (s.flag ≡ true → passes w ≡ passes p ⊎ (0 < length s.queue))
    → ((t : ℕ) → runs t p ≡ runs t w)
    → Inv cap (at s i w)
at-Inv cap s i p w v u h l r = record {
  fits = v.fits;
  one = omega (arith, v.one, u.holding);
  some_left = λ e k. elim (l e) [ inl q ↦ v.some_left e (omega (arith, u.passing)) | inr q ↦ q ];
  room = v.room;
  kept = λ t. omega (arith, v.kept t, u.running_it t, r t);
  flagged = v.flagged;
}

locking-Inv :
    (cap : ℕ) (s : Pool) (i : ℕ)
    → Inv cap s
    → Sums s i locking testing
    → s.locked ≡ false
    → Inv cap (record (at s i testing) { locked = true })
locking-Inv cap s i v u l = record {
  fits = v.fits;
  one = ground (arith, v.one, u.holding);
  some_left = λ e k. v.some_left e (omega (arith, u.passing));
  room = v.room;
  kept = λ t. omega (arith, v.kept t, u.running_it t);
  flagged = v.flagged;
}

unlock-Inv :
    (cap : ℕ) (s : Pool) (i : ℕ) (p w : Worker)
    → Inv cap s
    → Sums s i p w
    → holds p ≡ 1
    → holds w ≡ 0
    → passes w ≡ 0
    → ((t : ℕ) → runs t p ≡ runs t w)
    → Inv cap (record (at s i w) { locked = false })
unlock-Inv cap s i p w v u h h' k r = record {
  fits = v.fits;
  one = elim (Bool-cases s.locked) [
    | inl l ↦ ground (arith, v.one, u.holding, u.held)
    | inr l ↦ ground (arith, v.one, u.holding, u.held)
  ];
  some_left = λ e q. v.some_left e (omega (arith, u.passing));
  room = v.room;
  kept = λ t. omega (arith, v.kept t, u.running_it t, r t);
  flagged = v.flagged;
}

finish-Inv :
    (cap : ℕ) (s : Pool) (i t : ℕ)
    → Inv cap s
    → Sums s i (running t) looping
    → Inv cap (record (at s i looping) { done = t ∷ s.done })
finish-Inv cap s i t v u = record {
  fits = v.fits;
  one = omega (arith, v.one, u.holding);
  some_left = λ e q. v.some_left e (omega (arith, u.passing));
  room = v.room;
  kept = λ t'. ground (arith, v.kept t', u.running_it t');
  flagged = v.flagged;
}

pop_room :
    (cap : ℕ) (q : List ℕ) (t : ℕ) (p : Producer)
    → HasRoom cap (t ∷ q) p
    → HasRoom cap q (wake_producer p)
pop_room cap q t (goes_on u) h = omega arith
pop_room cap q t creating h = h
pop_room cap q t done_producing h = h
pop_room cap q t (wants u) h = h
pop_room cap q t (tries u) h = h
pop_room cap q t (gives_up u) h = h
pop_room cap q t (waits_for u) h = h

pub woken_room :
    (cap : ℕ) (q : List ℕ) (p : Producer) → HasRoom cap q p → HasRoom cap q (wake_producer p)
woken_room cap q (goes_on u) h = h
woken_room cap q creating h = h
woken_room cap q done_producing h = h
woken_room cap q (wants u) h = h
woken_room cap q (tries u) h = h
woken_room cap q (gives_up u) h = h
woken_room cap q (waits_for u) h = h

pub woken_holds : (p : Producer) → producer_holds (wake_producer p) ≡ producer_holds p
woken_holds p = ground arith

pub woken_carries : (t : ℕ) (p : Producer) → carries t (wake_producer p) ≡ carries t p
woken_carries t p = ground arith

get_task-Inv :
    (cap : ℕ) (s : Pool) (i t : ℕ) (ts : List ℕ)
    → Inv cap s
    → s.queue ≡ t ∷ ts
    → s.flag ≡ true
    → Sums s i passed (running t)
    → Inv cap (record s {
      queue = ts;
      locked = false;
      producer = wake_producer s.producer;
      workers = set s.workers i (running t);
    })
get_task-Inv cap s i t ts v e f u = record {
  fits = omega (arith, v.fits, ap length e);
  one = elim (Bool-cases s.locked) [
    | inl l ↦ ground (arith, v.one, u.holding, u.held, woken_holds s.producer)
    | inr l ↦ ground (arith, v.one, u.holding, u.held, woken_holds s.producer)
  ];
  some_left = λ _ q. absurd (elim (Bool-cases s.locked) [
    | inl l ↦ ground (arith, v.one, u.holding, u.passing, u.fewer, u.held)
    | inr l ↦ ground (arith, v.one, u.holding, u.passing, u.fewer, u.held)
  ]);
  room = λ h. pop_room cap ts t s.producer (rw e at (v.room f));
  kept = λ t'. ground (arith, v.kept t', u.running_it t', woken_carries t' s.producer, e);
  flagged = v.flagged;
}

test_true : (f : Bool) (q : List ℕ) → not f || not (null q) ≡ true → f ≡ true → 0 < length q
test_true f [] e h = ground arith
test_true f (t ∷ ts) e h = omega arith

testing-Inv :
    (cap : ℕ) (s : Pool) (i : ℕ)
    → get_or s.workers i exited ≡ testing
    → Inv cap s
    → Ensures (Inv cap) (worker_step s i testing)
unfolding worker_step
testing-Inv cap s i e v =
    if_elim (λ w. Inv cap (at s i w)) (not s.flag || not (null s.queue)) passed blocking
      (λ b.
        at-Inv cap s i testing passed v (sums s i testing passed e refl) refl
          (λ f. inr (test_true s.flag s.queue b f)) (λ t. refl))
      (λ b.
        at-Inv cap s i testing blocking v (sums s i testing blocking e refl) refl (λ f. inl refl)
          (λ t. refl))

take-Inv :
    (cap : ℕ) (s : Pool) (i : ℕ) (q : List ℕ)
    → s.queue ≡ q
    → get_or s.workers i exited ≡ passed
    → s.flag ≡ true
    → Inv cap s
    → Ensures (Inv cap) (get_task s i q)
unfolding get_task
take-Inv cap s i [] q e f v = absurd (
    omega (
      arith,
      v.some_left f (omega (arith, (sums s i passed exited e refl).passed_by)),
      ap length q,
    ))
take-Inv cap s i (t ∷ ts) q e f v =
    get_task-Inv cap s i t ts v q f (sums s i passed (running t) e refl)

pub worker-Inv :
    (cap : ℕ) (s : Pool) (i : ℕ) (p : Worker)
    → get_or s.workers i exited ≡ p
    → Inv cap s
    → Ensures (Inv cap) (worker_step s i p)
unfolding worker_step
worker-Inv cap s i looping e v =
    if_elim (λ w. Inv cap (at s i w)) s.flag locking exited
      (λ f.
        at-Inv cap s i looping locking v (sums s i looping locking e refl) refl (λ _. inl refl)
          (λ t. refl))
      (λ f.
        at-Inv cap s i looping exited v (sums s i looping exited e refl) refl (λ _. inl refl)
          (λ t. refl))
worker-Inv cap s i locking e v =
    if_elim (Ensures (Inv cap)) s.locked waits (moved (record (at s i testing) { locked = true }))
      (λ l. tt) (λ l. locking-Inv cap s i v (sums s i locking testing e refl) l)
worker-Inv cap s i testing e v = testing-Inv cap s i e v
worker-Inv cap s i blocking e v =
    unlock-Inv cap s i blocking sleeping v (sums s i blocking sleeping e refl) refl refl refl
      (λ t. refl)
worker-Inv cap s i sleeping e v = tt
worker-Inv cap s i passed e v =
    if_elim (Ensures (Inv cap)) s.flag (get_task s i s.queue)
      (moved (record (at s i exited) { locked = false })) (λ f. take-Inv cap s i s.queue refl e f v)
      (λ f.
        unlock-Inv cap s i passed exited v (sums s i passed exited e refl) refl refl refl
          (λ t. refl))
worker-Inv cap s i (running t) e v = finish-Inv cap s i t v (sums s i (running t) looping e refl)
worker-Inv cap s i exited e v = tt

-- a worker that wakes up with no notification
pub wakes_up-Inv :
    (cap : ℕ) (s : Pool) (i : ℕ)
    → get_or s.workers i exited ≡ sleeping
    → Inv cap s
    → Inv cap (at s i locking)
wakes_up-Inv cap s i e v =
    at-Inv cap s i sleeping locking v (sums s i sleeping locking e refl) refl (λ _. inl refl)
      (λ t. refl)
