-- ===== src/Vector/Refine.antt =====
-- The vector of mvector/mvector.h against lists.
use linux_cpp.Prelude.{
  ℕ, ◌+◌, ◌-◌, ◌≤◌, ◌<◌, ◌≡◌, refl, sym, ◌∙◌, List, length, length-set, copy_into, take, drop,
  get_or, set, get_or-take, ltb, leb, lt→ltb, ◌==◌, if◌then◌else◌, if_elim, ==→eq, arith,
}
use linux_cpp.Vector.{Vector, Result, ok, throws, breaks, remove, insert_at}
use linux_cpp.Vector.Contents.{contents, IsValid}
use linux_cpp.Vector.Moves.{without_at, down, down-length, down-without_at, last-without_at}
use linux_cpp.Vector.Gap.{with_range, gap, filled, tail, filled-with_range, length-filled}

-- The room that `insert` asks for is too small.
abbrev pub TooShort : {A : Type 0} → Vector A → ℕ → Type 0
TooShort v n = (v.cap ≤ v.sz + n) × (v.sz < n) × (v.sz + 1 < v.cap)

module _ {A : Type 0} (junk : A) where
  -- what `remove` owes
  abbrev pub Removes : Vector A → ℕ → Result (A × Vector A) → Type 0
  Removes v i (ok (t, v')) =
      (i < v.sz)
      × (t ≡ get_or (contents v) i junk)
      × IsValid v'
      × (contents v' ≡ without_at junk i (contents v))
  Removes v i throws = v.sz ≤ i
  Removes v i breaks = ⊥

  -- the block that `remove` leaves, with its pointer to the end apart
  remaining : List A → ℕ → ℕ → ℕ → A → List A
  remaining block sz end i t =
      if i == sz - 1
      then block
      else set (copy_into block i (take (end - (i + 1)) (drop (i + 1) block))) (end - 1) t

  remaining_lem :
      (block : List A) (sz end i : ℕ) (t : A)
      → end ≡ sz
      → i < sz
      → sz ≤ length block
      → (length (remaining block sz end i t) ≡ length block)
        × (take (sz - 1) (remaining block sz end i t) ≡ without_at junk i (take sz block))
  unfolding remaining down
  remaining_lem block sz end i t e h l = rw e (
      if_elim
        (λ b. (length b ≡ length block) × (take (sz - 1) b ≡ without_at junk i (take sz block)))
        (i == sz - 1) block _
        (λ q. (refl, last-without_at junk block sz i h l (==→eq i (sz - 1) q)))
        (λ q. (
          length-set (down junk block sz i h l) (sz - 1) t ∙ down-length junk block sz i h l,
          down-without_at junk block sz i h l t,
        )))

  pub remove-Removes : (i : ℕ) (v : Vector A) → IsValid v → Removes v i (remove junk i v)
  unfolding remove remaining
  remove-Removes i v w =
      if_elim (Removes v i) (leb v.sz i) throws _ (λ e. ground arith)
        (λ e.
          let h : i < v.sz = ground arith in
          let l : v.sz ≤ length v.block = omega (arith, w.fits, w.whole) in
          let q = remaining_lem v.block v.sz v.end i (get_or v.block i junk) w.ends h l in
          (
            h,
            sym (get_or-take v.sz i v.block junk h),
            record {
              whole = q.0 ∙ w.whole;
              fits = omega (arith, w.fits);
              ends = omega (arith, w.ends);
              stored = w.stored;
            },
            q.1,
          ))

  -- the elements are those of the list with the range in it
  abbrev pub Inserted : Vector A → List A → ℕ → Result (Vector A) → Type 0
  Inserted v xs k (ok v') = IsValid v' × (contents v' ≡ with_range junk xs k (contents v))
  Inserted v xs k throws = ⊥
  Inserted v xs k breaks = ⊥

  -- what `insert` owes
  abbrev pub Inserts : Vector A → List A → ℕ → Result (Vector A) → Type 0
  Inserts v xs k (ok v') = IsValid v' × (contents v' ≡ with_range junk xs k (contents v))
  Inserts v xs k throws = ⊥
  Inserts v xs k breaks = TooShort v (length xs)

  -- the block that `insert_at` leaves, with its pointer to the end apart
  widened_lem :
      (block xs : List A) (sz end k : ℕ)
      → end ≡ sz
      → k ≤ sz
      → sz + length xs ≤ length block
      → (length (copy_into (copy_into block (k + length xs) (take (end - k) (drop k block))) k xs)
          ≡ length block)
        × (take
              (sz + length xs)
              (copy_into (copy_into block (k + length xs) (take (end - k) (drop k block))) k xs)
            ≡ with_range junk xs k (take sz block))
  unfolding filled gap tail
  widened_lem block xs sz end k e h l =
      rw e (length-filled junk block xs sz k h l, filled-with_range junk block xs sz k h l)

  pub insert_at-Inserted :
      (xs : List A) (k : ℕ) (v : Vector A)
      → IsValid v
      → k ≤ v.sz
      → v.sz + length xs ≤ v.cap
      → Inserted v xs k (insert_at xs k v)
  unfolding insert_at
  insert_at-Inserted xs k v w h l =
      if_elim (Inserted v xs k) (ltb v.cap (v.end + length xs)) breaks _
        (λ e. absurd (ground (arith, w.ends)))
        (λ e.
          let q = widened_lem v.block xs v.sz v.end k w.ends h (omega (arith, w.whole)) in
          (
            record {
              whole = q.0 ∙ w.whole;
              fits = l;
              ends = omega (arith, w.ends);
              stored = w.stored;
            },
            q.1,
          ))

  pub insert_at-breaks :
      (xs : List A) (k : ℕ) (v : Vector A)
      → IsValid v
      → v.cap < v.sz + length xs
      → insert_at xs k v ≡ breaks
  unfolding insert_at
  insert_at-breaks xs k v w h = rw (lt→ltb v.cap (v.end + length xs) (omega (arith, w.ends))) refl
