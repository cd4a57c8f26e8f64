-- ===== src/AsyncRing/ByProducer.antt =====
-- async-ring-buffer: the steps of the producer.
use mathlib.Core.Path.{subst}
use linux_cpp.Prelude.{
  ℕ, ◌+◌, ◌<◌, ◌≡◌, refl, sym, ap, ◌∙◌, Bool, true, false, ◌||◌, List, [], ◌∷◌, ◌++◌, length,
  if_elim, arith, append_assoc,
}
use linux_cpp.AsyncRing.{
  Outcome, null, stored, thrown, emplace_back, Producer, ready, checking, pausing, sleeping,
  retrying, failed, Flusher, looking, idle, handling, flushing, clearing, State, after_try,
  overflow, wake_flusher, producer_step,
}
use linux_cpp.AsyncRing.Inv.{Tried, emplace_back-Tried, content, hand, Agree, MayTry, Holds}

module _ (input : List ℕ) where
  abbrev pub Fine : State → Type 0
  Fine s = Holds input s.producer s.todo s.flusher s

  -- a payload that is stored goes behind those of the buffer
  stores :
      (v : ℕ) (p q : Producer) (todo : List ℕ) (s : State) (o : Outcome)
      → (h : Holds input q todo s.flusher s) → hand q ++ todo ≡ v ∷ s.todo
      → (1024 < s.buffer.write_pos + 16 → Fine (record s { producer = p }))
      → Tried v s.buffer h.front o
      → Fine (after_try o p s)
  unfolding after_try
  stores v p q todo s null h e k t = k t
  stores v p q todo s (stored b) h e k t = record {
    front = h.front ++ (v ∷ []);
    back = h.back;
    first = t;
    second = h.second;
    order =
        ap (λ l. content s.file ++ (h.back ++ l))
          (append_assoc h.front (v ∷ []) s.todo ∙ ap (λ l. h.front ++ l) (sym e))
        ∙ h.order;
    agree = h.agree;
    may_try = tt;
  }
  stores v p q todo s thrown h e k t = absurd t

  pub wake_flusher-Agree :
      (f : Flusher) (sche sync : Bool) (back : List ℕ)
      → Agree f sche sync back
      → Agree (wake_flusher f) sche sync back
  wake_flusher-Agree looking sche sync back a = a
  wake_flusher-Agree idle sche sync back a = a
  wake_flusher-Agree (handling n) sche sync back a = a
  wake_flusher-Agree (flushing n) sche sync back a = a
  wake_flusher-Agree (clearing n) sche sync back a = a

  -- Where the status is 0 the buffer swapped out is empty, and the flusher may be given another.
  free_status :
      (f : Flusher) (sche sync : Bool) (back front : List ℕ)
      → (sche || sync) ≡ false
      → Agree f sche sync back
      → (back ≡ []) × Agree (wake_flusher f) true sync front
  free_status looking false false back front e a = (a.1 refl, (refl, λ x. absurd (cc)))
  free_status idle false false back front e a = (a.1 refl, (refl, λ x. absurd (cc)))
  free_status (handling n) false false back front e a = (a.1 refl, (refl, λ x. absurd (cc)))
  free_status (flushing n) sche false back front e a = absurd (cc)
  free_status (clearing n) sche false back front e a = absurd (cc)
  free_status f true sync back front e a = absurd (cc)
  free_status f false true back front e a = absurd (cc)

  -- the producer goes on with the same payload
  moves :
      (p q : Producer) (s : State)
      → hand p ≡ hand q
      → ((front : List ℕ) → MayTry q front)
      → Holds input p s.todo s.flusher s
      → Fine (record s { producer = q })
  moves p q s e k h = record {
    front = h.front;
    back = h.back;
    first = h.first;
    second = h.second;
    order = ap (λ l. content s.file ++ (h.back ++ (h.front ++ (l ++ s.todo)))) (sym e) ∙ h.order;
    agree = h.agree;
    may_try = k h.front;
  }

  taken :
      (p : Producer) (todo vs : List ℕ) (s : State)
      → Holds input p todo s.flusher s
      → Holds input p todo s.flusher (record s { todo = vs })
  taken p todo vs s h = record {
    front = h.front;
    back = h.back;
    first = h.first;
    second = h.second;
    order = h.order;
    agree = h.agree;
    may_try = h.may_try;
  }

  ready-Fine :
      (todo : List ℕ) (s : State)
      → ready ≡ s.producer
      → todo ≡ s.todo
      → Holds input ready todo s.flusher s
      → Fine (producer_step ready todo s)
  unfolding producer_step
  ready-Fine [] s q t h =
      subst (λ l. Holds input s.producer l s.flusher s) t
        (subst (λ r. Holds input r [] s.flusher s) q h)
  ready-Fine (v ∷ vs) s q t h =
      let k = taken ready (v ∷ vs) vs s h in
      stores v (checking v) ready (v ∷ vs) (record s { todo = vs }) (emplace_back v s.buffer) k refl
        (λ full. record {
          front = k.front;
          back = k.back;
          first = k.first;
          second = k.second;
          order = k.order;
          agree = k.agree;
          may_try = tt;
        })
        (emplace_back-Tried v s.buffer k.front k.first)

  pub other-Fine :
      (p : Producer) (s : State)
      → p ≡ s.producer
      → Holds input p s.todo s.flusher s
      → Fine (producer_step p s.todo s)
  unfolding producer_step overflow
  other-Fine ready s q h = ready-Fine s.todo s q refl h
  other-Fine (checking v) s q h =
      if_elim Fine (s.sche || s.sync) _ _ (λ e. moves (checking v) (pausing v) s refl (λ l. tt) h)
        (λ e.
          let free = free_status s.flusher s.sche s.sync h.back h.front e h.agree in
          record {
            front = h.back;
            back = h.front;
            first = h.second;
            second = h.first;
            order =
                ap (λ l. content s.file ++ (h.front ++ (l ++ (v ∷ s.todo)))) free.0
                ∙ ap (λ l. content s.file ++ (l ++ (h.front ++ (v ∷ s.todo)))) (sym free.0)
                ∙ h.order;
            agree = free.1;
            may_try = free.0;
          })
  other-Fine (pausing v) s q h = moves (pausing v) (sleeping v) s refl (λ l. tt) h
  other-Fine (sleeping v) s q h = subst (λ r. Holds input r s.todo s.flusher s) q h
  other-Fine (retrying v) s q h =
      stores v ready (retrying v) s.todo s (emplace_back v s.buffer) h refl
        (λ full. absurd (omega (arith, full, h.first.position, h.first.size, ap length h.may_try)))
        (emplace_back-Tried v s.buffer h.front h.first)
  other-Fine failed s q h = absurd h.may_try
