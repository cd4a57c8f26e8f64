-- ===== src/AsyncRing/Run.antt =====
-- async-ring-buffer: all schedules of the producer and the flusher.
use mathlib.Core.Path.{subst}
use linux_cpp.Prelude.{ℕ, ◌≡◌, ◌≢◌, refl, ap, ap₂, ◌∙◌, List, [], ◌∷◌, ◌++◌, append_assoc}
use linux_cpp.AsyncRing.{
  payloads, failed, State, start, wake_flusher, Turn, produce, flush, rouse, step, run,
}
use linux_cpp.AsyncRing.Inv.{new-HasPayloads, content, hand, MayTry}
use linux_cpp.AsyncRing.ByProducer.{Fine, wake_flusher-Agree, other-Fine}
use linux_cpp.AsyncRing.ByFlusher.{woken, flusher_step-Fine}

module _ (input : List ℕ) where
  step-Fine : (t : Turn) (s : State) → Fine input s → Fine input (step t s)
  unfolding step
  step-Fine produce s h = other-Fine input s.producer s refl h
  step-Fine flush s h = flusher_step-Fine input s.flusher s refl h
  step-Fine rouse s h =
      woken input s.flusher s.sync s h (wake_flusher s.flusher)
        (wake_flusher-Agree input s.flusher s.sche s.sync h.back h.agree)

  pub run-Fine : (ts : List Turn) (s : State) → Fine input s → Fine input (run ts s)
  unfolding run
  run-Fine [] s h = h
  run-Fine (t ∷ ts) s h = run-Fine ts (step t s) (step-Fine t s h)

  pub start-Fine : Fine input (start input)
  unfolding start
  start-Fine = record {
    front = [];
    back = [];
    first = new-HasPayloads;
    second = new-HasPayloads;
    order = refl;
    agree = (refl, λ e. refl);
    may_try = tt;
  }

-- the payloads of the buffer swapped out and of the other one
abbrev pub buffered : State → List ℕ
buffered s =
    payloads s.swapped.m_header s.swapped.m_index ++ payloads s.buffer.m_header s.buffer.m_index

-- However the producer, the flusher and wake-ups with no notification take turns, the payloads in the
-- file, those that wait to be written, those of the two buffers, the one that the producer tries to
-- put and those still to come are the payloads of the producer, in their order: none is lost, written
-- twice or overtaken. No access to a header throws.
pub run-keeps :
    (input : List ℕ) (ts : List Turn)
    → let s = run ts (start input) in
      (content s.file ++ (buffered s ++ (hand s.producer ++ s.todo)) ≡ input)
      × (s.producer ≢ failed)
run-keeps input ts =
    let s = run ts (start input) in
    let h = run-Fine input ts (start input) (start-Fine input) in
    let rest = hand s.producer ++ s.todo in
    (
      ap (λ l. content s.file ++ (l ++ rest)) (ap₂ ◌++◌ h.second.shown h.first.shown)
          ∙ ap (λ l. content s.file ++ l) (append_assoc h.back h.front rest)
          ∙ h.order,
      λ e. subst (λ p. MayTry p h.front) e h.may_try,
    )
