-- ===== src/Vector/Gap.antt =====
-- The moves of elements in `insert` of mvector/mvector.h.
use linux_cpp.Prelude.{
  ℕ, ◌+◌, ◌-◌, ◌≤◌, ◌<◌, ◌≡◌, inl, inr, sym, ap, ◌∙◌, List, ◌++◌, length, length-append,
  length-take, length-drop, length-copy_into, take, drop, get_or, copy_into, get_or-take,
  get_or-drop, get_or-copy_into_in, get_or-copy_into_out, get_or-copy_into_above, ltb, Bool-cases,
  arith,
}
use linux_cpp.Vector.Contents.{
  list_ext, get_or-append_left, get_or-append_right, get_or-slice, length-slice,
}
use linux_cpp.Vector.Moves.{before, behind}

module _ {A : Type 0} (junk : A) where
  -- the list with `xs` put in before its element `i`
  abbrev pub with_range : List A → ℕ → List A → List A
  with_range xs i ys = take i ys ++ (xs ++ drop i ys)

  -- the block after the elements from `i` on have moved up and `xs` has been copied into the gap
  module _ (block xs : List A) (sz i : ℕ) (h : i ≤ sz) (l : sz + length xs ≤ length block) where
    unfoldable pub tail : List A
    tail = take (sz - i) (drop i block)

    unfoldable pub gap : List A
    unfolding tail
    gap = copy_into block (i + length xs) tail

    unfoldable pub filled : List A
    filled = copy_into gap i xs

    filled_low : (j : ℕ) → j < i → get_or filled j junk ≡ get_or block j junk
    unfolding filled gap tail
    filled_low j p =
        get_or-copy_into_out xs gap i j junk p
        ∙ get_or-copy_into_out tail block (i + length xs) j junk (omega arith)

    gap-length : length gap ≡ length block
    unfolding gap
    gap-length = length-copy_into tail block (i + length xs)

    filled_middle : (k : ℕ) → k < length xs → get_or filled (i + k) junk ≡ get_or xs k junk
    unfolding filled
    filled_middle k p = get_or-copy_into_in xs gap i k junk p (omega (arith, gap-length))

    filled_high :
        (k : ℕ) → k < sz - i → get_or filled (i + length xs + k) junk ≡ get_or block (i + k) junk
    unfolding filled gap tail
    filled_high k p =
        get_or-copy_into_above xs gap i (i + length xs + k) junk (omega arith)
        ∙ get_or-copy_into_in tail block (i + length xs) k junk
            (omega (arith, length-slice block i (sz - i) (omega arith))) (omega arith)
        ∙ get_or-slice block i (sz - i) k junk p

    range_low :
        (j : ℕ) → j < i → get_or (with_range xs i (take sz block)) j junk ≡ get_or block j junk
    range_low j p =
        before junk i j (take sz block) (xs ++ drop i (take sz block)) p
          (omega (arith, length-take sz block))
        ∙ get_or-take sz j block junk (omega arith)

    range_middle :
        (k : ℕ)
        → k < length xs
        → get_or (with_range xs i (take sz block)) (i + k) junk ≡ get_or xs k junk
    range_middle k p =
        behind junk i (i + k) (take sz block) (xs ++ drop i (take sz block)) (omega arith)
          (omega (arith, length-take sz block))
        ∙ get_or-append_left xs (drop i (take sz block)) (i + k - i) junk (omega arith)
        ∙ ap (λ m. get_or xs m junk) (omega arith)

    range_high :
        (k : ℕ)
        → k < sz - i
        → get_or (with_range xs i (take sz block)) (i + length xs + k) junk
          ≡ get_or block (i + k) junk
    range_high k p =
        behind junk i (i + length xs + k) (take sz block) (xs ++ drop i (take sz block))
          (omega arith) (omega (arith, length-take sz block))
        ∙ get_or-append_right xs (drop i (take sz block)) (i + length xs + k - i) junk (omega arith)
        ∙ ap (λ m. get_or (drop i (take sz block)) m junk) (omega arith)
        ∙ get_or-drop i k (take sz block) junk
        ∙ get_or-take sz (i + k) block junk (omega arith)

    pub length-filled : length filled ≡ length block
    unfolding filled
    length-filled = length-copy_into xs gap i ∙ gap-length

    length-with_range : length (with_range xs i (take sz block)) ≡ sz + length xs
    length-with_range = omega (
      arith,
      length-append (take i (take sz block)) (xs ++ drop i (take sz block)),
      length-append xs (drop i (take sz block)),
      length-take i (take sz block),
      length-drop i (take sz block),
      length-take sz block,
    )

    pub filled-with_range : take (sz + length xs) filled ≡ with_range xs i (take sz block)
    filled-with_range =
        list_ext (take (sz + length xs) filled) (with_range xs i (take sz block)) junk
          (omega (arith, length-take (sz + length xs) filled, length-filled, length-with_range))
          (λ j p.
            let u : j < sz + length xs = omega (arith, length-take (sz + length xs) filled) in
            get_or-take (sz + length xs) j filled junk u ∙ same j u)
      where
        same :
            (j : ℕ)
            → j < sz + length xs
            → get_or filled j junk ≡ get_or (with_range xs i (take sz block)) j junk
        same j u = elim (Bool-cases (ltb j i)) [
          | inl e ↦ filled_low j (ground arith) ∙ sym (range_low j (ground arith))
          | inr e ↦ elim (Bool-cases (ltb j (i + length xs))) [
            | inl e' ↦
                let s : j ≡ i + (j - i) = ground arith in
                let q : j - i < length xs = ground arith in
                ap (λ m. get_or filled m junk) s
                ∙ filled_middle (j - i) q
                ∙ sym (range_middle (j - i) q)
                ∙ ap (λ m. get_or (with_range xs i (take sz block)) m junk) (sym s)
            | inr e' ↦
                let k = j - (i + length xs) in
                let s : j ≡ i + length xs + k = ground arith in
                let q : k < sz - i = ground arith in
                ap (λ m. get_or filled m junk) s
                ∙ filled_high k q
                ∙ sym (range_high k q)
                ∙ ap (λ m. get_or (with_range xs i (take sz block)) m junk) (sym s)
          ]
        ]
