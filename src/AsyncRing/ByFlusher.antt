-- ===== src/AsyncRing/ByFlusher.antt =====
-- async-ring-buffer: the steps of the flusher.
use mathlib.Core.Path.{subst}
use linux_cpp.Prelude.{
  ℕ, zero, suc, ◌≡◌, refl, sym, ap, ◌∙◌, Bool, true, false, List, [], ◌++◌, if_elim, append_assoc,
}
use linux_cpp.AsyncRing.{
  payloads, Producer, ready, checking, pausing, sleeping, retrying, failed, Flusher, looking, idle,
  handling, flushing, clearing, State, wake_producer, flusher_step,
}
use linux_cpp.AsyncRing.Inv.{
  reset-HasPayloads, content, content-write_all, hand, Agree, MayTry, Holds,
}
use linux_cpp.AsyncRing.ByProducer.{Fine}

module _ (input : List ℕ) where
  -- the flusher goes on, with other bits of the status
  turns :
      (f g : Flusher) (sche sync : Bool) (s : State) (h : Holds input s.producer s.todo f s)
      → Agree g sche sync h.back
      → Fine input (record s { sche = sche; sync = sync; flusher = g })
  turns f g sche sync s h a = record {
    front = h.front;
    back = h.back;
    first = h.first;
    second = h.second;
    order = h.order;
    agree = a;
    may_try = h.may_try;
  }

  hand-wake_producer : (p : Producer) → hand p ≡ hand (wake_producer p)
  hand-wake_producer ready = refl
  hand-wake_producer failed = refl
  hand-wake_producer (checking v) = refl
  hand-wake_producer (pausing v) = refl
  hand-wake_producer (sleeping v) = refl
  hand-wake_producer (retrying v) = refl

  wake_producer-MayTry : (p : Producer) (l : List ℕ) → MayTry p l → MayTry (wake_producer p) l
  wake_producer-MayTry ready l h = h
  wake_producer-MayTry failed l h = h
  wake_producer-MayTry (checking v) l h = h
  wake_producer-MayTry (pausing v) l h = h
  wake_producer-MayTry (sleeping v) l h = h
  wake_producer-MayTry (retrying v) l h = h

  -- The producer may have been woken.
  pub woken :
      (f : Flusher) (sync : Bool) (s : State) (h : Holds input s.producer s.todo f s) (g : Flusher)
      → Agree g s.sche sync h.back
      → Fine input (record s { sync = sync; producer = wake_producer s.producer; flusher = g })
  woken f sync s h g a = record {
    front = h.front;
    back = h.back;
    first = h.first;
    second = h.second;
    order =
        ap (λ l. content s.file ++ (h.back ++ (h.front ++ (l ++ s.todo))))
          (sym (hand-wake_producer s.producer))
        ∙ h.order;
    agree = a;
    may_try = wake_producer-MayTry s.producer h.front h.may_try;
  }

  pub flusher_step-Fine :
      (f : Flusher) (s : State)
      → f ≡ s.flusher
      → Holds input s.producer s.todo f s
      → Fine input (flusher_step f s)
  unfolding flusher_step
  flusher_step-Fine looking s e h = looked s.listed
    where
      looked :
          (n : ℕ)
          → Fine input (elim n [
            | zero ↦ record s { flusher = idle }
            | suc n ↦ record s { listed = 0; flusher = handling (suc n) }
          ])
      looked zero = turns looking idle s.sche s.sync s h h.agree
      looked (suc n) = record {
        front = h.front;
        back = h.back;
        first = h.first;
        second = h.second;
        order = h.order;
        agree = h.agree;
        may_try = h.may_try;
      }
  flusher_step-Fine idle s e h = subst (λ g. Holds input s.producer s.todo g s) e h
  flusher_step-Fine (handling zero) s e h = turns (handling 0) looking s.sche s.sync s h h.agree
  flusher_step-Fine (handling (suc n)) s e h =
      if_elim (Fine input) s.sche _ _
        (λ y. turns (handling (suc n)) (flushing n) false true s h (refl, refl))
        (λ y. turns (handling (suc n)) (handling n) s.sche s.sync s h h.agree)
  flusher_step-Fine (flushing n) s e h = record {
    front = h.front;
    back = [];
    first = h.first;
    second = reset-HasPayloads s.swapped h.back h.second;
    order =
        ap (λ l. l ++ (h.front ++ (hand s.producer ++ s.todo)))
          (content-write_all (payloads s.swapped.m_header s.swapped.m_index) s.file
            ∙ ap (λ l. content s.file ++ l) h.second.shown)
        ∙ append_assoc (content s.file) h.back (h.front ++ (hand s.producer ++ s.todo))
        ∙ h.order;
    agree = (h.agree.0, h.agree.1, refl);
    may_try = h.may_try;
  }
  flusher_step-Fine (clearing n) s e h =
      woken (clearing n) false s h (handling n) (refl, λ y. h.agree.2)
