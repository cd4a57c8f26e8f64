-- ===== src/Vector/Moves.antt =====
-- The moves of elements in `remove` of mvector/mvector.h.
use linux_cpp.Prelude.{
  ℕ, ◌+◌, ◌-◌, ◌≤◌, ◌<◌, ◌≡◌, inl, inr, sym, ap, ◌∙◌, List, ◌++◌, length, length-append,
  length-take, length-drop, length-set, length-copy_into, take, drop, get_or, set, copy_into,
  get_or-take, get_or-drop, get_or-copy_into_in, get_or-copy_into_out, get_or-set_ne, ltb,
  Bool-cases, arith,
}
use linux_cpp.Vector.Contents.{
  list_ext, get_or-append_left, get_or-append_right, get_or-slice, length-slice,
}

module _ {A : Type 0} (junk : A) where
  -- the list without its element `i`
  abbrev pub without_at : ℕ → List A → List A
  without_at i xs = take i xs ++ drop (i + 1) xs

  length-without_at :
      (i : ℕ) (xs : List A) → i < length xs → length (without_at i xs) ≡ length xs - 1
  length-without_at i xs h =
      omega (
        arith,
        length-append (take i xs) (drop (i + 1) xs),
        length-take i xs,
        length-drop (i + 1) xs,
      )

  pub before :
      (i j : ℕ) (xs ys : List A)
      → j < i
      → i ≤ length xs
      → get_or (take i xs ++ ys) j junk ≡ get_or xs j junk
  before i j xs ys h l =
      get_or-append_left (take i xs) ys j junk (omega (arith, length-take i xs))
      ∙ get_or-take i j xs junk h

  pub behind :
      (i j : ℕ) (xs ys : List A)
      → i ≤ j
      → i ≤ length xs
      → get_or (take i xs ++ ys) j junk ≡ get_or ys (j - i) junk
  behind i j xs ys h l =
      get_or-append_right (take i xs) ys j junk (omega (arith, length-take i xs))
      ∙ ap (λ n. get_or ys (j - n) junk) (omega (arith, length-take i xs))

  -- the block after the elements behind `i` have moved one place down
  module _ (block : List A) (sz i : ℕ) (h : i < sz) (l : sz ≤ length block) where
    unfoldable pub down : List A
    down = copy_into block i (take (sz - (i + 1)) (drop (i + 1) block))

    pub down-length : length down ≡ length block
    unfolding down
    down-length = length-copy_into (take (sz - (i + 1)) (drop (i + 1) block)) block i

    down_low : (j : ℕ) → j < i → get_or down j junk ≡ get_or block j junk
    unfolding down
    down_low j p = get_or-copy_into_out (take (sz - (i + 1)) (drop (i + 1) block)) block i j junk p

    down_high : (j : ℕ) → i ≤ j → j < sz - 1 → get_or down j junk ≡ get_or block (j + 1) junk
    unfolding down
    down_high j p q =
        let seg = take (sz - (i + 1)) (drop (i + 1) block) in
        let n = length-slice block (i + 1) (sz - (i + 1)) (omega arith) in
        ap (λ k. get_or down k junk) (omega arith)
        ∙ get_or-copy_into_in seg block i (j - i) junk (omega (arith, n)) (omega arith)
        ∙ get_or-slice block (i + 1) (sz - (i + 1)) (j - i) junk (omega arith)
        ∙ ap (λ k. get_or block k junk) (omega arith)

    kept_low : (j : ℕ) → j < i → get_or (without_at i (take sz block)) j junk ≡ get_or block j junk
    kept_low j p =
        before i j (take sz block) (drop (i + 1) (take sz block)) p
          (omega (arith, length-take sz block))
        ∙ get_or-take sz j block junk (omega arith)

    kept_high :
        (j : ℕ)
        → i ≤ j
        → j < sz - 1
        → get_or (without_at i (take sz block)) j junk ≡ get_or block (j + 1) junk
    kept_high j p q =
        behind i j (take sz block) (drop (i + 1) (take sz block)) p
          (omega (arith, length-take sz block))
        ∙ get_or-drop (i + 1) (j - i) (take sz block) junk
        ∙ ap (λ k. get_or (take sz block) k junk) (omega arith)
        ∙ get_or-take sz (j + 1) block junk (omega arith)

    -- what is left when the last element has been given up
    pub down-without_at :
        (t : A) → take (sz - 1) (set down (sz - 1) t) ≡ without_at i (take sz block)
    down-without_at t =
        let n = length-without_at i (take sz block) (omega (arith, length-take sz block)) in
        list_ext (take (sz - 1) (set down (sz - 1) t)) (without_at i (take sz block)) junk
          (omega (
            arith,
            n,
            length-take (sz - 1) (set down (sz - 1) t),
            length-set down (sz - 1) t,
            down-length,
            length-take sz block,
          ))
          (λ j p.
            let u : j < sz - 1 = omega (arith, length-take (sz - 1) (set down (sz - 1) t)) in
            get_or-take (sz - 1) j (set down (sz - 1) t) junk u
            ∙ get_or-set_ne down (sz - 1) j t junk (omega arith)
            ∙ elim (Bool-cases (ltb j i)) [
              | inl e ↦ down_low j (ground arith) ∙ sym (kept_low j (ground arith))
              | inr e ↦ down_high j (ground arith) u ∙ sym (kept_high j (ground arith) u)
            ])

    pub last-without_at : i ≡ sz - 1 → take (sz - 1) block ≡ without_at i (take sz block)
    last-without_at e =
        let n = length-without_at i (take sz block) (omega (arith, length-take sz block)) in
        list_ext (take (sz - 1) block) (without_at i (take sz block)) junk
          (omega (arith, n, length-take (sz - 1) block, length-take sz block))
          (λ j p.
            let u : j < sz - 1 = omega (arith, length-take (sz - 1) block) in
            get_or-take (sz - 1) j block junk u ∙ sym (kept_low j (omega (arith, e))))
