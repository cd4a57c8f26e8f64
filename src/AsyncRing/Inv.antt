-- ===== src/AsyncRing/Inv.antt =====
-- async-ring-buffer: the payloads of a buffer and of the file, and what holds between two steps.
use linux_cpp.Prelude.{
  ℕ, zero, suc, ◌+◌, ◌*◌, ◌≤◌, ◌<◌, ◌≡◌, refl, sym, ap, ◌∙◌, Bool, true, false, Option, none, some,
  List, [], ◌∷◌, ◌++◌, length, set, ltb, if_elim, ltb→lt, ltb→le, arith, append_assoc, append-nil,
  length-append, length-set, length-replicate, List-cases, inl, inr,
}
use linux_cpp.AsyncRing.{
  Buffer, Outcome, null, stored, thrown, request, put_header, emplace_back, payloads, reset,
  new_buffer, FileBuffer, overflow_file, write, write_all, Producer, ready, checking, pausing,
  sleeping, retrying, failed, Flusher, looking, idle, handling, flushing, clearing, State,
}

-- the buffer has the payloads `vs`
pub record HasPayloads (b : Buffer) (vs : List ℕ) : Type 0 where
  pub shown : payloads b.m_header b.m_index ≡ vs
  pub size : length vs ≡ b.m_index
  pub position : b.write_pos ≡ b.m_index * 16
  pub fits : b.write_pos ≤ 1024
  pub wide : length b.m_header ≡ 1024

payloads-set :
    (hs : List (Option ℕ)) (n v : ℕ)
    → n < length hs
    → payloads (set hs n (some v)) (suc n) ≡ payloads hs n ++ (v ∷ [])
unfolding payloads
payloads-set [] n v h = absurd (omega (arith, h))
payloads-set (x ∷ hs) zero v h = refl
payloads-set (none ∷ hs) (suc n) v h = payloads-set hs n v (omega (arith, h))
payloads-set (some u ∷ hs) (suc n) v h = ap (λ t. u ∷ t) (payloads-set hs n v (omega (arith, h)))

pub new-HasPayloads : HasPayloads new_buffer []
unfolding payloads
new-HasPayloads = record {
  shown = refl;
  size = refl;
  position = refl;
  fits = omega arith;
  wide = length-replicate {A = Option ℕ} 1024 none;
}

pub reset-HasPayloads : (b : Buffer) (vs : List ℕ) → HasPayloads b vs → HasPayloads (reset b) []
unfolding payloads
reset-HasPayloads b vs h = record {
  shown = refl;
  size = refl;
  position = refl;
  fits = omega arith;
  wide = h.wide;
}

-- A buffer is full or takes one more; `at` never throws.
abbrev pub Tried : ℕ → Buffer → List ℕ → Outcome → Type 0
Tried v b vs null = 1024 < b.write_pos + 16
Tried v b vs (stored c) = HasPayloads c (vs ++ (v ∷ []))
Tried v b vs thrown = ⊥

pub emplace_back-Tried :
    (v : ℕ) (b : Buffer) (vs : List ℕ) → HasPayloads b vs → Tried v b vs (emplace_back v b)
unfolding emplace_back request put_header
emplace_back-Tried v b vs h =
    if_elim (λ (o : Option Buffer). Tried v b vs (put_header v o)) (ltb 1024 (b.write_pos + 16)) _ _
      (λ e. ltb→lt _ _ e)
      (λ e.
        let room : b.write_pos + 16 ≤ 1024 = ltb→le _ _ e in
        if_elim (Tried v b vs) (ltb b.m_index (length b.m_header)) _ _
          (λ f. record {
            shown =
                payloads-set b.m_header b.m_index v (ltb→lt _ _ f)
                ∙ ap (λ l. l ++ (v ∷ [])) h.shown;
            size = omega (arith, length-append vs (v ∷ []), h.size);
            position = omega (arith, h.position);
            fits = room;
            wide = length-set b.m_header b.m_index (some v) ∙ h.wide;
          })
          (λ f. absurd (omega (arith, ltb→le _ _ f, h.wide, h.position, room))))

-- all the payloads that were written, in order
abbrev pub content : FileBuffer → List ℕ
content f = f.written ++ f.held

content-overflow_file : (f : FileBuffer) → content (overflow_file f) ≡ content f
unfolding overflow_file
content-overflow_file f = elim (List-cases f.held) [
  | inl e ↦ rw e refl
  | inr (v, vs, e) ↦ rw e (append-nil (f.written ++ (v ∷ vs)))
]

content-write : (v : ℕ) (f : FileBuffer) → content (write v f) ≡ content f ++ (v ∷ [])
unfolding write
content-write v f =
    if_elim (λ (g : FileBuffer). g.written ++ (g.held ++ (v ∷ [])) ≡ content f ++ (v ∷ []))
      (ltb 1024 (length f.held * 16 + 16)) _ _
      (λ e.
        sym (append_assoc (overflow_file f).written (overflow_file f).held (v ∷ []))
        ∙ ap (λ l. l ++ (v ∷ [])) (content-overflow_file f))
      (λ e. sym (append_assoc f.written f.held (v ∷ [])))

pub content-write_all : (vs : List ℕ) (f : FileBuffer) → content (write_all vs f) ≡ content f ++ vs
unfolding write_all
content-write_all [] f = sym (append-nil (content f))
content-write_all (v ∷ vs) f =
    content-write_all vs (write v f)
    ∙ ap (λ l. l ++ vs) (content-write v f)
    ∙ append_assoc (content f) (v ∷ []) vs

-- the payload that the producer tries to put
abbrev pub hand : Producer → List ℕ
hand ready = []
hand failed = []
hand (checking v) = v ∷ []
hand (pausing v) = v ∷ []
hand (sleeping v) = v ∷ []
hand (retrying v) = v ∷ []

-- The bits of the status say what the flusher does and whether the buffer swapped out has payloads.
abbrev pub Agree : Flusher → Bool → Bool → List ℕ → Type 0
Agree (flushing n) sche sync back = (sche ≡ false) × (sync ≡ true)
Agree (clearing n) sche sync back = (sche ≡ false) × (sync ≡ true) × (back ≡ [])
Agree looking sche sync back = (sync ≡ false) × (sche ≡ false → back ≡ [])
Agree idle sche sync back = (sync ≡ false) × (sche ≡ false → back ≡ [])
Agree (handling n) sche sync back = (sync ≡ false) × (sche ≡ false → back ≡ [])

-- The second try finds an empty buffer, and no call throws.
abbrev pub MayTry : Producer → List ℕ → Type 0
MayTry ready front = Unit {0}
MayTry (checking v) front = Unit {0}
MayTry (pausing v) front = Unit {0}
MayTry (sleeping v) front = Unit {0}
MayTry (retrying v) front = front ≡ []
MayTry failed front = ⊥

-- The producer at `p` with `todo` left, and the flusher at `f`: all payloads, in order, make `input`.
pub record Holds (input : List ℕ) (p : Producer) (todo : List ℕ) (f : Flusher) (s : State)
    : Type 0 where
  pub front : List ℕ
  pub back : List ℕ
  pub first : HasPayloads s.buffer front
  pub second : HasPayloads s.swapped back
  pub order : content s.file ++ (back ++ (front ++ (hand p ++ todo))) ≡ input
  pub agree : Agree f s.sche s.sync back
  pub may_try : MayTry p front
