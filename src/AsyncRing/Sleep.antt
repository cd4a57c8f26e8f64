-- ===== src/AsyncRing/Sleep.antt =====
-- async-ring-buffer: a notification of the flusher that comes before the producer waits.
use mathlib.Core.Path.{subst}
use linux_cpp.Prelude.{ℕ, zero, suc, ◌≡◌, refl, sym, false, List, [], ◌∷◌}
use linux_cpp.AsyncRing.{
  pausing, sleeping, Flusher, looking, idle, handling, flushing, clearing, State, start,
  wake_producer, producer_step, flusher_step, Turn, produce, flush, rouse, step, run,
}
use linux_cpp.AsyncRing.Inv.{Agree}
use linux_cpp.AsyncRing.Run.{run-Fine, start-Fine}

-- a schedule in which no thread wakes up without a notification
abbrev pub Notified : List Turn → Type 0
Notified [] = Unit {0}
Notified (produce ∷ ts) = Notified ts
Notified (flush ∷ ts) = Notified ts
Notified (rouse ∷ ts) = ⊥

-- The flusher has nothing left to do.
abbrev Quiet : Flusher → Type 0
Quiet looking = Unit {0}
Quiet idle = Unit {0}
Quiet (handling zero) = Unit {0}
Quiet (handling (suc n)) = ⊥
Quiet (flushing n) = ⊥
Quiet (clearing n) = ⊥

record Asleep (v : ℕ) (s : State) : Type 0 where
  waits : s.producer ≡ sleeping v
  none_listed : s.listed ≡ 0
  no_sche : s.sche ≡ false
  no_sync : s.sync ≡ false
  quiet : Quiet s.flusher

flush-Asleep :
    (v : ℕ) (f : Flusher) (s : State)
    → f ≡ s.flusher
    → Quiet f
    → Asleep v s
    → Asleep v (flusher_step f s)
unfolding flusher_step
flush-Asleep v looking s e q h =
    subst
      (λ n. Asleep v (elim n [
        | zero ↦ record s { flusher = idle }
        | suc n ↦ record s { listed = 0; flusher = handling (suc n) }
      ]))
      (sym h.none_listed)
      (record {
        waits = h.waits;
        none_listed = h.none_listed;
        no_sche = h.no_sche;
        no_sync = h.no_sync;
        quiet = tt;
      })
flush-Asleep v idle s e q h = h
flush-Asleep v (handling zero) s e q h = record {
  waits = h.waits;
  none_listed = h.none_listed;
  no_sche = h.no_sche;
  no_sync = h.no_sync;
  quiet = tt;
}
flush-Asleep v (handling (suc n)) s e q h = absurd q
flush-Asleep v (flushing n) s e q h = absurd q
flush-Asleep v (clearing n) s e q h = absurd q

run-Asleep : (v : ℕ) (us : List Turn) (s : State) → Notified us → Asleep v s → Asleep v (run us s)
unfolding run step producer_step
run-Asleep v [] s n h = h
run-Asleep v (produce ∷ us) s n h =
    run-Asleep v us (step produce s) n
      (subst (λ p. Asleep v (producer_step p s.todo s)) (sym h.waits) h)
run-Asleep v (flush ∷ us) s n h =
    run-Asleep v us (step flush s) n (flush-Asleep v s.flusher s refl h.quiet h)
run-Asleep v (rouse ∷ us) s n h = absurd n

-- the flusher clears the status and notifies, then the producer waits
falls-Asleep :
    (v : ℕ) (s : State)
    → s.producer ≡ pausing v
    → s.flusher ≡ clearing 0
    → s.listed ≡ 0
    → s.sche ≡ false
    → Asleep v (run (flush ∷ produce ∷ []) s)
unfolding run step producer_step flusher_step
falls-Asleep v s p f l c =
    subst (λ g. Asleep v (step produce (flusher_step g s))) (sym f)
      (subst
        (λ q. Asleep v (
          producer_step (wake_producer q) s.todo
            (record s { sync = false; producer = wake_producer s.producer; flusher = handling 0 })))
        (sym p) (record { waits = refl; none_listed = l; no_sche = c; no_sync = refl; quiet = tt }))

-- When the flusher is behind the only buffer of its list, and the producer has found the status busy
-- and is about to wait, the flusher may clear the status and notify first. The producer then sleeps
-- for ever with the status 0, whatever runs, unless it wakes up without a notification.
pub run-sleeping :
    (input : List ℕ) (ts : List Turn) (v : ℕ)
    → (run ts (start input)).producer ≡ pausing v
    → (run ts (start input)).flusher ≡ clearing 0
    → (run ts (start input)).listed ≡ 0
    → (us : List Turn) → Notified us
    → let t = run us (run (flush ∷ produce ∷ []) (run ts (start input))) in
      (t.producer ≡ sleeping v) × (t.sche ≡ false) × (t.sync ≡ false)
run-sleeping input ts v p f l us n =
    let s = run ts (start input) in
    let fine = run-Fine input ts (start input) (start-Fine input) in
    let idle_status = subst (λ g. Agree g s.sche s.sync fine.back) f fine.agree in
    let h =
      run-Asleep v us (run (flush ∷ produce ∷ []) s) n (falls-Asleep v s p f l idle_status.0) in
    (h.waits, h.no_sche, h.no_sync)
