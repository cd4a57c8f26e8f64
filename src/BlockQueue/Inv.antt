-- ===== src/BlockQueue/Inv.antt =====
-- What every event keeps in the queue of block_queue/block_queue.h.
use linux_cpp.Prelude.{
  ℕ, ◌≤◌, ◌<◌, ◌≡◌, ◌≢◌, refl, sym, ap, ◌∙◌, List, [], ◌∷◌, ◌++◌, append_assoc, length,
  length-append, get_or, set, if_elim, ==→eq, ==→ne, arith,
}
use linux_cpp.BlockQueue.{
  Thread, putting, put_sleeps, getting, get_sleeps, finished, BlockQueue, full, put, take_front,
  get, step_of, step, awake, wake_up, Event, runs, wakes, event, run_events,
}
use linux_cpp.BlockQueue.Sleepers.{
  asleep_get, asleep_put, number, number-set, woken_getters, getters_put, woken_putters,
  putters_get,
}

pub record Inv (q : BlockQueue) : Type 0 where
  pub some_room : 0 < q.cap
  pub fits : length q.values ≤ q.cap
  pub order : q.arrived ≡ q.left ++ q.values
  pub getters : number asleep_get q.threads ≢ 0 → length q.values ≡ 0
  pub putters : number asleep_put q.threads ≢ 0 → length q.values ≡ q.cap

put-Inv : (i v : ℕ) (q : BlockQueue) → Inv q → Inv (put i v q)
unfolding put
put-Inv i v q w =
    if_elim Inv (full q) (record q { threads = set q.threads i (put_sleeps v) }) _
      (λ e. record {
        some_room = w.some_room;
        fits = w.fits;
        order = w.order;
        getters = λ h.
            w.getters (λ z.
              absurd (h (omega (arith, number-set asleep_get q.threads i (put_sleeps v), z))));
        putters = λ h. ==→eq (length q.values) q.cap e;
      })
      (λ e.
        let n = ==→ne (length q.values) q.cap e in
        record {
          some_room = w.some_room;
          fits = omega (arith, w.fits, n, length-append q.values (v ∷ []));
          order = ap (λ xs. xs ++ (v ∷ [])) w.order ∙ append_assoc q.left q.values (v ∷ []);
          getters = λ h. absurd (h (woken_getters (set q.threads i finished)));
          putters = λ h. absurd (
              n (
                w.putters (λ z. h (
                  omega (
                    arith,
                    getters_put (set q.threads i finished),
                    number-set asleep_put q.threads i finished,
                    z,
                  )))));
        })

take_front-Inv :
    (i : ℕ) (vs : List ℕ) (q : BlockQueue) → q.values ≡ vs → Inv q → Inv (take_front i vs q)
unfolding take_front
take_front-Inv i [] q e w = record {
  some_room = w.some_room;
  fits = w.fits;
  order = w.order;
  getters = λ h. ap length e;
  putters = λ h.
      w.putters (λ z. absurd (h (omega (arith, number-set asleep_put q.threads i get_sleeps, z))));
}
take_front-Inv i (v ∷ vs) q e w = record {
  some_room = w.some_room;
  fits = omega (arith, w.fits, ap length e);
  order = w.order ∙ ap (λ xs. q.left ++ xs) e ∙ sym (append_assoc q.left (v ∷ []) vs);
  getters = λ h. absurd (
      omega (
        arith,
        ap length e,
        w.getters (λ z. h (
            omega (
              arith,
              putters_get (set q.threads i finished),
              number-set asleep_get q.threads i finished,
              z,
            ))),
      ));
  putters = λ h. absurd (h (woken_putters (set q.threads i finished)));
}

step_of-Inv : (i : ℕ) (t : Thread) (q : BlockQueue) → Inv q → Inv (step_of i t q)
unfolding step_of get
step_of-Inv i (putting v) q w = put-Inv i v q w
step_of-Inv i getting q w = take_front-Inv i q.values q refl w
step_of-Inv i (put_sleeps v) q w = w
step_of-Inv i get_sleeps q w = w
step_of-Inv i finished q w = w

awake_get : (t : Thread) → asleep_get (awake t) ≡ 0
awake_get t = ground arith

awake_put : (t : Thread) → asleep_put (awake t) ≡ 0
awake_put t = ground arith

event-Inv : (e : Event) (q : BlockQueue) → Inv q → Inv (event e q)
unfolding event step wake_up
event-Inv (runs i) q w = step_of-Inv i (get_or q.threads i finished) q w
event-Inv (wakes i) q w =
    let t = awake (get_or q.threads i finished) in
    record {
      some_room = w.some_room;
      fits = w.fits;
      order = w.order;
      getters = λ h. w.getters (λ z. absurd (
          h (
            omega (
              arith,
              number-set asleep_get q.threads i t,
              awake_get (get_or q.threads i finished),
              z,
            ))));
      putters = λ h. w.putters (λ z. absurd (
          h (
            omega (
              arith,
              number-set asleep_put q.threads i t,
              awake_put (get_or q.threads i finished),
              z,
            ))));
    }

pub run_events-Inv : (es : List Event) (q : BlockQueue) → Inv q → Inv (run_events es q)
unfolding run_events
run_events-Inv [] q w = w
run_events-Inv (e ∷ es) q w = run_events-Inv es (event e q) (event-Inv e q w)
