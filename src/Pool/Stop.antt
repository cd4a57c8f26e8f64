-- ===== src/Pool/Stop.antt =====
-- `stop` of thread_pool/thread_pool.h can wait for ever: the flag is cleared and the notification sent
-- without the mutex, between a worker's test of the predicate and its sleep.
use linux_cpp.Prelude.{
  ℕ, zero, suc, ◌≡◌, ◌≢◌, inl, inr, refl, ap, ◌∙◌, false, ◌&&◌, List, [], ◌∷◌, get_or, set,
  replicate, get_or-set_ne, ◌==◌, if_elim, Bool-cases, ==→eq, ==→ne, arith,
}
use linux_cpp.Pool.{
  Worker, looping, locking, testing, blocking, sleeping, passed, exited, running, Producer,
  creating, done_producing, wants, tries, gives_up, waits_for, goes_on, Stopper, idle, flag_cleared,
  one_notified, joining, cleaning, stopped, Pool, Outcome, moved, waits, undefined, all_exited,
  is_done, worker_step, producer_step, stop_step, Who, worker, the_producer, the_stopper, step,
  start, wake, Reach, started, then_step, after, run_steps,
}
use linux_cpp.Pool.Inv.{Ensures}

-- the flag is cleared, `stop` joins the threads, and worker `i` sleeps
pub record Lost (i : ℕ) (s : Pool) : Type 0 where
  pub cleared : s.flag ≡ false
  pub joins : s.stopper ≡ joining
  pub asleep : get_or s.workers i exited ≡ sleeping

-- what is left of a lost wake-up when worker `j` goes to `w`
other-Lost :
    (i j : ℕ) (s : Pool) (w : Worker)
    → Lost i s
    → j ≢ i
    → get_or (set s.workers j w) i exited ≡ sleeping
other-Lost i j s w v n = get_or-set_ne s.workers j i w exited n ∙ v.asleep

moves-Lost :
    (i j : ℕ) (s : Pool) (p : Worker) → Lost i s → j ≢ i → Ensures (Lost i) (worker_step s j p)
unfolding worker_step
moves-Lost i j s looping v n = record {
  cleared = v.cleared;
  joins = v.joins;
  asleep = other-Lost i j s _ v n;
}
moves-Lost i j s locking v n =
    if_elim (Ensures (Lost i)) s.locked _ _ (λ _. tt)
      (λ _. record { cleared = v.cleared; joins = v.joins; asleep = other-Lost i j s _ v n })
moves-Lost i j s testing v n = record {
  cleared = v.cleared;
  joins = v.joins;
  asleep = other-Lost i j s _ v n;
}
moves-Lost i j s blocking v n = record {
  cleared = v.cleared;
  joins = v.joins;
  asleep = other-Lost i j s _ v n;
}
moves-Lost i j s sleeping v n = tt
moves-Lost i j s passed v n =
    if_elim (Ensures (Lost i)) s.flag _ _ (λ f. absurd (ground (arith, v.cleared)))
      (λ _. record { cleared = v.cleared; joins = v.joins; asleep = other-Lost i j s _ v n })
moves-Lost i j s (running t) v n = record {
  cleared = v.cleared;
  joins = v.joins;
  asleep = other-Lost i j s _ v n;
}
moves-Lost i j s exited v n = tt

produces-Lost :
    (i cap : ℕ) (s : Pool) (p : Producer) → Lost i s → Ensures (Lost i) (producer_step cap s p)
unfolding producer_step
produces-Lost i cap s creating v =
    if_elim (Ensures (Lost i)) s.flag _ _
      (λ _. record { cleared = v.cleared; joins = v.joins; asleep = v.asleep })
      (λ _. record { cleared = v.cleared; joins = v.joins; asleep = v.asleep })
produces-Lost i cap s (wants t) v =
    if_elim (Ensures (Lost i)) s.locked _ _ (λ _. tt)
      (λ _. record { cleared = v.cleared; joins = v.joins; asleep = v.asleep })
produces-Lost i cap s (tries t) v = record {
  cleared = v.cleared;
  joins = v.joins;
  asleep = v.asleep;
}
produces-Lost i cap s (gives_up t) v = record {
  cleared = v.cleared;
  joins = v.joins;
  asleep = v.asleep;
}
produces-Lost i cap s (waits_for t) v = tt
produces-Lost i cap s (goes_on t) v =
    if_elim (Ensures (Lost i)) s.flag _ _ (λ f. absurd (ground (arith, v.cleared)))
      (λ _. record { cleared = v.cleared; joins = v.joins; asleep = v.asleep })
produces-Lost i cap s done_producing v = tt

sleeper : (ws : List Worker) (i : ℕ) → get_or ws i exited ≡ sleeping → all_exited ws ≡ false
unfolding all_exited
sleeper [] i e = ground arith
sleeper (w ∷ ws) zero e = rw e refl
sleeper (w ∷ ws) (suc i) e = ground (arith, sleeper ws i e)

sleeps-Lost : (i j : ℕ) (s : Pool) → Ensures (Lost i) (worker_step s j sleeping)
unfolding worker_step
sleeps-Lost i j s = tt

stops-Lost :
    (i : ℕ) (s : Pool) (p : Stopper) → Lost i s → p ≡ joining → Ensures (Lost i) (stop_step s p)
unfolding stop_step
stops-Lost i s joining v e =
    if_elim (Ensures (Lost i)) (all_exited s.workers && is_done s.producer) _ _
      (λ h. absurd (ground (arith, sleeper s.workers i v.asleep))) (λ _. tt)
stops-Lost i s idle v e = absurd (cc)
stops-Lost i s flag_cleared v e = absurd (cc)
stops-Lost i s one_notified v e = absurd (cc)
stops-Lost i s cleaning v e = absurd (cc)
stops-Lost i s stopped v e = absurd (cc)

step-Lost : (i cap : ℕ) (w : Who) (s : Pool) → Lost i s → Ensures (Lost i) (step cap w s)
unfolding step
step-Lost i cap (worker j) s v = elim (Bool-cases (j == i)) [
  | inl e ↦ rw (ap (λ k. get_or s.workers k exited) (==→eq j i e) ∙ v.asleep) (sleeps-Lost i j s)
  | inr n ↦ moves-Lost i j s (get_or s.workers j exited) v (==→ne j i n)
]
step-Lost i cap the_producer s v = produces-Lost i cap s s.producer v
step-Lost i cap the_stopper s v = stops-Lost i s s.stopper v v.joins

after-Lost : (i : ℕ) (o : Outcome) (s : Pool) → Lost i s → Ensures (Lost i) o → Lost i (after o s)
after-Lost i (moved u) s v h = h
after-Lost i waits s v h = v
after-Lost i undefined s v h = v

pub run_steps-Lost : (i cap : ℕ) (ws : List Who) (s : Pool) → Lost i s → Lost i (run_steps cap ws s)
unfolding run_steps
run_steps-Lost i cap [] s v = v
run_steps-Lost i cap (w ∷ ws) s v =
    run_steps-Lost i cap ws (after (step cap w s) s)
      (after-Lost i (step cap w s) s v (step-Lost i cap w s v))

-- worker 0 has found the predicate false and the mutex is still its own when `stop` clears the flag
-- and notifies; then it sleeps
lost_state : ℕ → Pool
unfolding start wake
lost_state n = record (start (suc n)) {
  flag = false;
  workers = sleeping ∷ wake (replicate n looping);
  stopper = joining;
}

reach_lost : (n cap : ℕ) → Reach (suc n) cap (lost_state n)
unfolding lost_state step worker_step stop_step wake start
reach_lost n cap =
    let s0 : Reach (suc n) cap (start (suc n)) = started in
    let s1 = then_step (worker 0) s0 refl in
    let s2 = then_step (worker 0) s1 refl in
    let s3 = then_step (worker 0) s2 refl in
    let s4 = then_step the_stopper s3 refl in
    let s5 = then_step the_stopper s4 refl in
    let s6 = then_step the_stopper s5 refl in then_step (worker 0) s6 refl

-- A pool with at least one worker can come to a state from which `stop` never returns: whatever
-- threads run from there on, in any order, and as long as none wakes up with no notification, the
-- stopping thread still joins the workers.
pub stop_hangs :
    (n cap : ℕ)
    → (s : Pool) × Reach (suc n) cap s × ((ws : List Who) → (run_steps cap ws s).stopper ≡ joining)
unfolding lost_state
stop_hangs n cap = (
  lost_state n,
  reach_lost n cap,
  λ ws.
      (run_steps-Lost 0 cap ws (lost_state n)
        (record { cleared = refl; joins = refl; asleep = refl })).joins,
)
