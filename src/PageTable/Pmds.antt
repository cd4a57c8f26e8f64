-- ===== src/PageTable/Pmds.antt =====
-- The loop of `remap_pmd_range` of page-table-map/test.cpp.
use linux_cpp.Prelude.{
  ℕ, zero, suc, ◌+◌, ◌-◌, ◌*◌, ◌/◌, ◌%◌, ◌≤◌, ◌<◌, ◌≡◌, ◌≢◌, refl, sym, ap, ap₂, ◌∙◌, inl, inr,
  Option, none, some, List, [], ◌∷◌, length, get_or, ltb, ◌==◌, if◌then◌else◌, Bool-cases,
  Option-cases, ltb→lt, ltb→le, ==→eq, ==→ne, arith, min,
}
use mathlib.Core.Option.{map}
use linux_cpp.PageTable.{u64, u32, next, next_pmd, remap_pte_range, remap_pmds, Pmds}
use linux_cpp.PageTable.Entry.{
  mapped, mapped_above, mapped_from, mapped_cut, entry1, entry2, entry2_first, entry2_later, IsPtes,
  ArePmds,
}
use linux_cpp.PageTable.Ptes.{TableMaps, remap_pte_range-TableMaps}

-- `o` is the list of tables `es`, of which the first starts at page `b`, with the pages from `p` to
-- below `q` mapped.
abbrev pub Maps : ℕ → Pmds → ℕ → ℕ → ℕ → Option Pmds → Type 0
Maps b es p q x none = ⊥
Maps b es p q x (some ts) =
    (length ts ≡ length es)
    × ArePmds ts
    × ((n : ℕ) → entry2 ts n ≡ mapped p q x (b + n) (entry2 es n))

next_pmd_page :
    (b p q m : ℕ)
    → b ≡ p / 8 * 8
    → p < q
    → q * 64 < u32
    → m ≡ min (b + 8) q
    → next_pmd (p * 64) (q * 64) % u32 ≡ m * 64
unfolding next
next_pmd_page b p q m base h w e = ground arith

Maps-cons :
    (b p q x : ℕ) (e : Option (List ℕ)) (es : Pmds) (t : List ℕ) (o : Option Pmds)
    → p < b + 8
    → TableMaps b e p (min (b + 8) q) x (some t)
    → Maps (b + 8) es (b + 8) q x o
    → Maps b (e ∷ es) p q x (map (λ ts. some t ∷ ts) o)
Maps-cons b p q x e es t none h head rest = rest
Maps-cons b p q x e es t (some ts) h (len, head) (lens, shape, rest) =
    (omega arith, shapes, entries)
  where
    shapes : (j : ℕ) → IsPtes (get_or (some t ∷ ts) j none)
    shapes zero = len
    shapes (suc j) = shape j

    later :
        (k : ℕ)
        → entry2 (some t ∷ ts) (8 + k) ≡ mapped p q x (b + (8 + k)) (entry2 (e ∷ es) (8 + k))
    later k =
        let page : b + 8 + k ≡ b + (8 + k) = omega arith in
        entry2_later (some t) ts k
        ∙ rest k
        ∙ mapped_from p (b + 8) q x (b + 8 + k) (entry2 es k) (omega arith) (omega arith)
        ∙ ap₂ (λ n v. mapped p q x n v) page (sym (entry2_later e es k))

    entries : (n : ℕ) → entry2 (some t ∷ ts) n ≡ mapped p q x (b + n) (entry2 (e ∷ es) n)
    entries n = elim (Bool-cases (ltb n 8)) [
      | inl c ↦
          let first : n < 8 = ltb→lt n 8 c in
          rw (entry2_first (some t) ts n first, entry2_first e es n first, head n)
            (mapped_cut p (b + 8) q x (b + n) (entry1 e n) (omega arith))
      | inr c ↦
          let past : n ≡ 8 + (n - 8) = omega (arith, ltb→le n 8 c) in rw (← past) at (later (n - 8))
    ]

Maps-nothing : (es : Pmds) (b q x : ℕ) → q ≤ b → ArePmds es → Maps b es b q x (some es)
Maps-nothing es b q x h shape =
    (refl, shape, λ n. sym (mapped_above b q x (b + n) (entry2 es n) (omega arith)))

pmds_step : List ℕ → Pmds → ℕ → ℕ → ℕ → Option Pmds
pmds_step t es end to paddr =
    if end == to then some (some t ∷ es) else map (λ ts. some t ∷ ts) (remap_pmds es end to paddr)

pmds_enters :
    (e : Option (List ℕ)) (es : Pmds) (start to paddr : ℕ) (t : List ℕ)
    → remap_pte_range e start (next_pmd start to % u32) ((paddr + start) % u64) ≡ some t
    → remap_pmds (e ∷ es) start to paddr ≡ pmds_step t es (next_pmd start to % u32) to paddr
unfolding remap_pmds pmds_step
pmds_enters e es start to paddr t m = rw (remap_pmds, m) refl

pmds_mapped :
    (e : Option (List ℕ)) (es : Pmds) (start to paddr end : ℕ) (t : List ℕ)
    → next_pmd start to % u32 ≡ end
    → remap_pte_range e start end ((paddr + start) % u64) ≡ some t
    → remap_pmds (e ∷ es) start to paddr ≡ pmds_step t es end to paddr
pmds_mapped e es start to paddr end t n m =
    pmds_enters e es start to paddr t
      (ap (λ k. remap_pte_range e start k ((paddr + start) % u64)) n ∙ m)
    ∙ ap (λ k. pmds_step t es k to paddr) n

-- the loop, from the entry in which page `p` lies on
pub remap_pmds-Maps :
    (es : Pmds) (b p q x : ℕ)
    → b ≡ p / 8 * 8
    → p < q
    → q * 64 < u32
    → q ≤ b + 8 * length es
    → x < u64
    → ArePmds es
    → ((n : ℕ) → p ≤ b + n → b + n < q → entry2 es n ≢ 0)
    → Maps b es p q x (remap_pmds es (p * 64) (q * 64) x)
unfolding pmds_step
remap_pmds-Maps [] b p q x base h w l xs shape full = absurd (omega arith)
remap_pmds-Maps (e ∷ es) b p q x base h w l xs shape full =
    let m = min (b + 8) q in
    let step = next_pmd_page b p q m base h w refl in
    let o = remap_pte_range e (p * 64) (m * 64) ((x + p * 64) % u64) in
    let head : TableMaps b e p m x o =
      remap_pte_range-TableMaps e b p m x base (omega arith) (omega arith) (omega arith) xs
        (shape 0) (λ k c d z. full k c (omega arith) (entry2_first e es k (omega arith) ∙ z)) in
    elim (Option-cases o) [
      | inl z ↦ absurd (rw z at head)
      | inr (t, z) ↦
          let first : TableMaps b e p m x (some t) = rw z at head in
          rw (pmds_mapped e es (p * 64) (q * 64) x (m * 64) t step z)
            (elim (Bool-cases (m * 64 == q * 64)) [
              | inl c ↦
                  let all : q ≤ b + 8 = omega (arith, ==→eq (m * 64) (q * 64) c) in
                  rw c (
                    Maps-cons b p q x e es t (some es) (omega arith) first
                      (Maps-nothing es (b + 8) q x all (λ j. shape (suc j))))
              | inr c ↦
                  let more : m ≡ b + 8 = ground (arith, ==→ne (m * 64) (q * 64) c) in
                  let more' : b + 8 < q = ground (arith, ==→ne (m * 64) (q * 64) c) in
                  rw (c, more)
                    (Maps-cons b p q x e es t (remap_pmds es ((b + 8) * 64) (q * 64) x)
                      (omega arith) first
                      (remap_pmds-Maps es (b + 8) (b + 8) q x (omega arith) more' w (omega arith) xs
                        (λ j. shape (suc j))
                        (λ n c d z.
                          full (8 + n) (omega arith) (omega arith) (entry2_later e es n ∙ z))))
            ])
    ]
