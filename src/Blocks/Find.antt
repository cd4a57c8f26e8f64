-- ===== src/Blocks/Find.antt =====
-- `find_next_bit` of filesystem-block-manager/test.cpp on every branch.
use linux_cpp.Prelude.{
  ℕ, suc, ◌+◌, ◌-◌, ◌*◌, ◌/◌, ◌%◌, ◌≤◌, ◌<◌, ◌≡◌, ◌≢◌, inl, inr, refl, sym, ap, ◌∙◌, true, false,
  none, some, ◌==◌, ltb, if_elim, Bool-cases, Option-cases, ==→eq, ==→ne, bit, complement, above,
  below, bit-complement, bit-above_low, bit-above_high, bit-below, complement-Fits, above-Fits,
  Fits-zero, arith,
}
use linux_cpp.Blocks.Scan.{AllSet, test_bit_at, word_loop-WordHit, BitHit, bit_loop-BitHit}
use linux_cpp.Blocks.{
  Words, test_bit, word_loop, bit_loop, Found, found, out, undefined, search_word, find_next_bit,
}

-- the bits that the second loop can reach: not those of a last word that is whole
abbrev pub reachable : ℕ → ℕ
reachable size = (size - 1) / 64 * 64 + size % 64

-- what `find_next_bit` owes
abbrev pub Finds : Words → ℕ → ℕ → Found → Type 0
Finds addr size start (found n) =
    (start ≤ n) × (n < reachable size) × (test_bit n addr ≡ false) × AllSet addr start n
Finds addr size start out = AllSet addr start size
Finds addr size start undefined =
    (size % 64 ≡ 0)
    × AllSet addr start (size - 64)
    × (n : ℕ) × (start ≤ n)
    × (size - 64 ≤ n)
    × (n < size)
    × (test_bit n addr ≡ false)

-- the bits of the word that `bit_loop` reads
module _ (addr : Words) (i f : ℕ) where
  scanned :
      (j : ℕ)
      → j < 64
      → f ≤ j
      → bit (complement 64 (above f (complement 64 (addr i)))) j ≡ test_bit (j + i * 64) addr
  scanned j h l =
      let b = bit-complement 64 (above f (complement 64 (addr i))) j h in
      let c = bit-above_high f (complement 64 (addr i)) j l in
      let d = bit-complement 64 (addr i) j h in
      let t = test_bit_at addr i j h in ground (arith, b, c, d, t)

  skipped :
      (j : ℕ) → j < 64 → j < f → bit (complement 64 (above f (complement 64 (addr i)))) j ≡ true
  skipped j h l =
      let b = bit-complement 64 (above f (complement 64 (addr i))) j h in
      let c = bit-above_low f (complement 64 (addr i)) j l in ground (arith, b, c)

  -- a word that is not 0 has a bit
  some_clear :
      above f (complement 64 (addr i)) ≢ 0
      → ((j : ℕ) → j < 64 → bit (complement 64 (above f (complement 64 (addr i)))) j ≡ true)
      → ⊥
  some_clear n h = n (
      Fits-zero 64 (above f (complement 64 (addr i)))
        (above-Fits 64 f (complement 64 (addr i)) (complement-Fits 64 (addr i)))
        (λ j l. ground (arith, h j l, bit-complement 64 (above f (complement 64 (addr i))) j l)))

  -- a hit of the second loop in the first `m` bits of the word is the bit that was asked for
  hit-Finds :
      (size start m result n : ℕ)
      → m ≤ 64
      → i * 64 + m ≤ reachable size
      → start ≤ i * 64 + f
      → AllSet addr start (i * 64 + f)
      → ((j : ℕ) → j < m → bit result j ≡ bit (complement 64 (above f (complement 64 (addr i)))) j)
      → BitHit result 0 m (some n)
      → Finds addr size start (found (n + i * 64))
  hit-Finds size start m result n h k l a same (_, w, z, before) =
      let u : n < m = omega arith in
      let in_word : f ≤ n = elim (Bool-cases (ltb n f)) [
        | inl e ↦ absurd (ground (arith, same n u, z, skipped n (omega arith) (ground arith)))
        | inr e ↦ ground arith
      ] in
      (
        omega arith,
        omega arith,
        sym (scanned n (omega arith) in_word) ∙ sym (same n u) ∙ z,
        λ j p q. elim (Bool-cases (ltb j (i * 64 + f))) [
          | inl e ↦ a j p (ground arith)
          | inr e ↦
              let j' = j - i * 64 in
              let le : i * 64 + f ≤ j = ground arith in
              let s : j ≡ j' + i * 64 = omega arith in
              ap (λ x. test_bit x addr) s
              ∙ sym (scanned j' (omega arith) (omega arith))
              ∙ sym (same j' (omega arith))
              ∙ before j' (omega arith) (omega arith)
        ],
      )

  -- no hit in the first `m` bits: they are all set
  miss-AllSet :
      (start m result : ℕ)
      → m ≤ 64
      → AllSet addr start (i * 64 + f)
      → ((j : ℕ) → j < m → bit result j ≡ bit (complement 64 (above f (complement 64 (addr i)))) j)
      → BitHit result 0 m none
      → AllSet addr start (i * 64 + m)
  miss-AllSet start m result h a same b = λ j p q. elim (Bool-cases (ltb j (i * 64 + f))) [
    | inl e ↦ a j p (ground arith)
    | inr e ↦
        let j' = j - i * 64 in
        let le : i * 64 + f ≤ j = ground arith in
        let s : j ≡ j' + i * 64 = omega arith in
        ap (λ x. test_bit x addr) s
        ∙ sym (scanned j' (omega arith) (omega arith))
        ∙ sym (same j' (omega arith))
        ∙ b j' (omega arith) (omega arith)
  ]

trimmed : (m v j : ℕ) → j < m → m ≤ 64 → bit (complement 64 (below m v)) j ≡ bit (complement 64 v) j
trimmed m v j h l =
    let b = bit-complement 64 (below m v) j (omega arith) in
    let c = bit-below m v j h in
    let d = bit-complement 64 v j (omega arith) in ground (arith, b, c, d)

-- a word that is not 0 has a bit that is free
clear_bit_of :
    (addr : Words) (i f : ℕ)
    → above f (complement 64 (addr i)) ≢ 0
    → (n : ℕ) × (i * 64 + f ≤ n) × (n < i * 64 + 64) × (test_bit n addr ≡ false)
clear_bit_of addr i f h =
    let v = above f (complement 64 (addr i)) in
    let r = bit_loop 64 0 (complement 64 v) in
    let hit = bit_loop-BitHit 64 0 (complement 64 v) (omega arith) in
    elim (Option-cases r) [
      | inl e ↦ absurd (some_clear addr i f h (λ j l. (rw e at hit) j (omega arith) (omega arith)))
      | inr (n, e) ↦
          let (low, high, z, before) = rw e at hit in
          let g =
            hit-Finds addr i f (i * 64 + 65) (i * 64 + f) 64 (complement 64 v) n (omega arith)
              (omega arith) (omega arith) (λ k p q. absurd (omega arith)) (λ j l. refl)
              (rw e at hit) in
          (n + i * 64, g.0, omega (arith, high), g.2)
    ]

search_word-Finds :
    (addr : Words) (size start i f : ℕ)
    → f < 64
    → 0 < size
    → i < suc ((size - 1) / 64)
    → above f (complement 64 (addr i)) ≢ 0
    → start ≤ i * 64 + f
    → AllSet addr start (i * 64 + f)
    → Finds addr size start
        (search_word ((size - 1) % 64) ((size - 1) / 64) i (above f (complement 64 (addr i))))
unfolding search_word
search_word-Finds addr size start i f l p u h k a =
    let v = above f (complement 64 (addr i)) in
    let lo = (size - 1) % 64 in
    let last = (size - 1) / 64 in
    if_elim (Finds addr size start) (i == last) _ _
      (λ e.
        if_elim (Finds addr size start) (suc lo == 64) _ _
          (λ e'.
            let q : i ≡ last = ==→eq i last e in
            let q' : suc lo ≡ 64 = ==→eq (suc lo) 64 e' in
            let (n, b, c, d) = clear_bit_of addr i f h in
            (
              omega arith,
              λ j x y. a j x (omega arith),
              n,
              omega arith,
              omega arith,
              omega arith,
              d,
            ))
          (λ e'.
            let q : i ≡ last = ==→eq i last e in
            let q' : suc lo ≢ 64 = ==→ne (suc lo) 64 e' in
            let result = complement 64 (below (suc lo) v) in
            let hit = bit_loop-BitHit (suc lo) 0 result (omega arith) in
            elim (Option-cases (bit_loop (suc lo) 0 result)) [
              | inl n ↦ rw n (λ j x y.
                  miss-AllSet addr i f start (suc lo) result (omega arith) a
                    (λ j' z. trimmed (suc lo) v j' z (omega arith)) (rw n at hit) j x (omega arith))
              | inr (m, n) ↦ rw n (
                  hit-Finds addr i f size start (suc lo) result m (omega arith) (omega arith) k a
                    (λ j' z. trimmed (suc lo) v j' z (omega arith)) (rw n at hit))
            ]))
      (λ e.
        let q : i ≢ last = ==→ne i last e in
        let result = complement 64 v in
        let hit = bit_loop-BitHit 64 0 result (omega arith) in
        elim (Option-cases (bit_loop 64 0 result)) [
          | inl n ↦
              absurd (some_clear addr i f h (λ j z. (rw n at hit) j (omega arith) (omega arith)))
          | inr (m, n) ↦ rw n (
              hit-Finds addr i f size start 64 result m (omega arith) (omega arith) k a
                (λ j z. refl) (rw n at hit))
        ])

-- From a start in the first word on, `find_next_bit` returns the first bit below `size` that is clear,
-- and `size` when all of them are set; but when `size` is a multiple of 64 it returns no bit of the
-- last 64: where one of those is the first that is clear, it shifts a word by 64, which is undefined.
pub find_next_bit-Finds :
    (addr : Words) (size start : ℕ)
    → 0 < size
    → start < 64
    → Finds addr size start (find_next_bit addr size start)
unfolding find_next_bit
find_next_bit-Finds addr size start p l =
    let last = (size - 1) / 64 in
    let zero_word : start / 64 ≡ 0 = omega arith in
    let offset : start % 64 ≡ start = omega arith in
    let hit = word_loop-WordHit (suc last) addr 0 start l in
    rw (zero_word, offset)
      (elim (Option-cases (word_loop (suc last) addr 0 0 start)) [
        | inl n ↦ rw n (λ k x y. (rw n at hit) k (omega arith) (omega arith))
        | inr ((i, v), n) ↦
            let (u, f, g, e, z, m, a) = rw n at hit in
            rw (n, e)
              (search_word-Finds addr size start i f g p (omega arith) (λ q. z (e ∙ q))
                (omega arith) (λ k x y. a k (omega arith) y))
      ])
