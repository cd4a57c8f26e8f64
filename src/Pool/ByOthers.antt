-- ===== src/Pool/ByOthers.antt =====
-- A step of the producer or of the stopping thread of thread_pool/thread_pool.h keeps what holds of
-- the pool.
use linux_cpp.Prelude.{
  ℕ, suc, ◌≤◌, ◌<◌, ◌≡◌, inl, inr, refl, ap, Bool, true, false, not, ◌&&◌, ◌||◌, List, [], ◌∷◌,
  ◌++◌, length, length-append, ◌==◌, Bool-cases, if_elim, sym, ◌∙◌, arith,
}
use linux_cpp.Pool.{
  wake, Producer, creating, done_producing, wants, tries, gives_up, waits_for, goes_on,
  wake_producer, Stopper, idle, flag_cleared, one_notified, joining, cleaning, stopped, Pool,
  all_exited, is_done, clean, producer_step, stop_step,
}
use linux_cpp.Pool.Weigh.{holds, passes, runs, weigh-wake}
use linux_cpp.Pool.Inv.{Inv, producer_holds, HasRoom, carries, count-append, Ensures, is_idle}
use linux_cpp.Pool.ByWorker.{woken_holds, woken_carries, woken_room}

-- the producer goes from `p` to `q` and holds the mutex as before
producer-Inv :
    (cap : ℕ) (s : Pool) (p q : Producer)
    → s.producer ≡ p
    → Inv cap s
    → producer_holds q ≡ producer_holds p
    → ((t : ℕ) → carries t q ≡ carries t p)
    → (s.flag ≡ true → HasRoom cap s.queue q)
    → Inv cap (record s { producer = q })
producer-Inv cap s p q e v h c r = record {
  fits = v.fits;
  one = omega (arith, v.one, h, ap producer_holds e);
  some_left = v.some_left;
  room = r;
  kept = λ t. ground (arith, v.kept t, c t, e);
  flagged = v.flagged;
}

create-Inv :
    (cap : ℕ) (s : Pool)
    → s.producer ≡ creating
    → Inv cap s
    → Inv cap (record s { producer = wants s.next_id; next_id = suc s.next_id })
create-Inv cap s e v = record {
  fits = v.fits;
  one = ground (arith, v.one, e);
  some_left = v.some_left;
  room = λ _. tt;
  kept = λ t. ground (arith, v.kept t, e);
  flagged = v.flagged;
}

lock-Inv :
    (cap : ℕ) (s : Pool) (t : ℕ)
    → s.producer ≡ wants t
    → s.locked ≡ false
    → Inv cap s
    → Inv cap (record s { producer = tries t; locked = true })
lock-Inv cap s t e l v = record {
  fits = v.fits;
  one = ground (arith, v.one, e);
  some_left = v.some_left;
  room = λ _. tt;
  kept = λ t'. ground (arith, v.kept t', e);
  flagged = v.flagged;
}

block-Inv :
    (cap : ℕ) (s : Pool) (t : ℕ)
    → s.producer ≡ gives_up t
    → Inv cap s
    → Inv cap (record s { producer = waits_for t; locked = false })
block-Inv cap s t e v = record {
  fits = v.fits;
  one = elim (Bool-cases s.locked) [
    | inl l ↦ ground (arith, v.one, e)
    | inr l ↦ ground (arith, v.one, e)
  ];
  some_left = v.some_left;
  room = λ _. tt;
  kept = λ t'. ground (arith, v.kept t', e);
  flagged = v.flagged;
}

leak-Inv :
    (cap : ℕ) (s : Pool) (t : ℕ)
    → s.producer ≡ goes_on t
    → Inv cap s
    → Inv cap (record s { leaked = t ∷ s.leaked; producer = creating; locked = false })
leak-Inv cap s t e v = record {
  fits = v.fits;
  one = elim (Bool-cases s.locked) [
    | inl l ↦ ground (arith, v.one, e)
    | inr l ↦ ground (arith, v.one, e)
  ];
  some_left = v.some_left;
  room = λ _. tt;
  kept = λ t'. ground (arith, v.kept t', e);
  flagged = v.flagged;
}

push-Inv :
    (cap : ℕ) (s : Pool) (t : ℕ)
    → s.producer ≡ goes_on t
    → s.flag ≡ true
    → Inv cap s
    → Inv cap (record s {
      queue = s.queue ++ (t ∷ []);
      workers = wake s.workers;
      producer = creating;
      locked = false;
    })
push-Inv cap s t e f v = record {
  fits = omega (arith, length-append s.queue (t ∷ []), rw e at (v.room f));
  one = elim (Bool-cases s.locked) [
    | inl l ↦ ground (arith, v.one, e, weigh-wake holds refl s.workers)
    | inr l ↦ ground (arith, v.one, e, weigh-wake holds refl s.workers)
  ];
  some_left = λ _ _. omega (arith, length-append s.queue (t ∷ []));
  room = λ _. tt;
  kept = λ t'.
      ground (
        arith,
        v.kept t',
        e,
        weigh-wake (runs t') refl s.workers,
        count-append t' s.queue (t ∷ []),
      );
  flagged = v.flagged;
}

not_full : (cap n : ℕ) (f : Bool) → not f || not (n == cap) ≡ true → f ≡ true → n ≤ cap → n < cap
not_full cap n f e h l = ground arith

tries-Inv :
    (cap : ℕ) (s : Pool) (t : ℕ)
    → s.producer ≡ tries t
    → Inv cap s
    → Ensures (Inv cap) (producer_step cap s (tries t))
unfolding producer_step
tries-Inv cap s t e v =
    if_elim (λ p. Inv cap (record s { producer = p })) (not s.flag || not (length s.queue == cap))
      (goes_on t) (gives_up t)
      (λ b.
        producer-Inv cap s (tries t) (goes_on t) e v refl (λ _. refl)
          (λ f. not_full cap (length s.queue) s.flag b f v.fits))
      (λ b. producer-Inv cap s (tries t) (gives_up t) e v refl (λ _. refl) (λ _. tt))

pub producer_step-Inv :
    (cap : ℕ) (s : Pool) (p : Producer)
    → s.producer ≡ p
    → Inv cap s
    → Ensures (Inv cap) (producer_step cap s p)
unfolding producer_step
producer_step-Inv cap s creating e v =
    if_elim (Ensures (Inv cap)) s.flag _ _ (λ f. create-Inv cap s e v)
      (λ f. producer-Inv cap s creating done_producing e v refl (λ _. refl) (λ _. tt))
producer_step-Inv cap s (wants t) e v =
    if_elim (Ensures (Inv cap)) s.locked _ _ (λ l. tt) (λ l. lock-Inv cap s t e l v)
producer_step-Inv cap s (tries t) e v = tries-Inv cap s t e v
producer_step-Inv cap s (gives_up t) e v = block-Inv cap s t e v
producer_step-Inv cap s (waits_for t) e v = tt
producer_step-Inv cap s (goes_on t) e v =
    if_elim (Ensures (Inv cap)) s.flag _ _ (λ f. push-Inv cap s t e f v) (λ f. leak-Inv cap s t e v)
producer_step-Inv cap s done_producing e v = tt

pub woken_producer-Inv :
    (cap : ℕ) (s : Pool) → Inv cap s → Inv cap (record s { producer = wake_producer s.producer })
woken_producer-Inv cap s v = record {
  fits = v.fits;
  one = omega (arith, v.one, woken_holds s.producer);
  some_left = v.some_left;
  room = λ f. woken_room cap s.queue s.producer (v.room f);
  kept = λ t. omega (arith, v.kept t, woken_carries t s.producer);
  flagged = v.flagged;
}

-- the workers are woken and the stopping thread goes from `p` to `q`, both past the clearing of the
-- flag
notify-Inv :
    (cap : ℕ) (s : Pool)
    → s.stopper ≡ flag_cleared
    → Inv cap s
    → Inv cap (record s { workers = wake s.workers; stopper = one_notified })
notify-Inv cap s e v = record {
  fits = v.fits;
  one = omega (arith, v.one, weigh-wake holds refl s.workers);
  some_left = λ f h. v.some_left f (omega (arith, weigh-wake passes refl s.workers));
  room = v.room;
  kept = λ t. omega (arith, v.kept t, weigh-wake (runs t) refl s.workers);
  flagged = rw e at v.flagged;
}

pass-Inv :
    (cap : ℕ) (s : Pool) (q : Stopper)
    → is_idle q ≡ is_idle s.stopper
    → Inv cap s
    → Inv cap (record s { stopper = q })
pass-Inv cap s q h v = record {
  fits = v.fits;
  one = v.one;
  some_left = v.some_left;
  room = v.room;
  kept = v.kept;
  flagged = h ∙ v.flagged;
}

clear-Inv :
    (cap : ℕ) (s : Pool) → Inv cap s → Inv cap (record s { flag = false; stopper = flag_cleared })
clear-Inv cap s v = record {
  fits = v.fits;
  one = v.one;
  some_left = λ f h. cc;
  room = λ f. cc;
  kept = v.kept;
  flagged = refl;
}

clean-Inv :
    (cap : ℕ) (s : Pool) (q : List ℕ)
    → s.queue ≡ q
    → s.stopper ≡ cleaning
    → Inv cap s
    → Inv cap (clean s q)
unfolding clean
clean-Inv cap s [] e h v = pass-Inv cap s stopped (ap is_idle (sym h)) v
clean-Inv cap s (t ∷ ts) e h v = record {
  fits = omega (arith, v.fits, ap length e);
  one = v.one;
  some_left = λ f k. absurd (ground (arith, v.flagged, h));
  room = λ f. absurd (ground (arith, v.flagged, h));
  kept = λ t'. ground (arith, v.kept t', e);
  flagged = v.flagged;
}

pub stop_step-Inv :
    (cap : ℕ) (s : Pool) (p : Stopper)
    → s.stopper ≡ p
    → Inv cap s
    → Ensures (Inv cap) (stop_step s p)
unfolding stop_step
stop_step-Inv cap s idle e v = clear-Inv cap s v
stop_step-Inv cap s flag_cleared e v = notify-Inv cap s e v
stop_step-Inv cap s one_notified e v =
    pass-Inv cap (record s { producer = wake_producer s.producer }) joining (ap is_idle (sym e))
      (woken_producer-Inv cap s v)
stop_step-Inv cap s joining e v =
    if_elim (Ensures (Inv cap)) (all_exited s.workers && is_done s.producer) _ _
      (λ _. pass-Inv cap s cleaning (ap is_idle (sym e)) v) (λ _. tt)
stop_step-Inv cap s cleaning e v = clean-Inv cap s s.queue refl e v
stop_step-Inv cap s stopped e v = tt
