-- ===== src/PageTable/Pgds.antt =====
-- The loop of `remap_range` of page-table-map/test.cpp.
use linux_cpp.Prelude.{
  ℕ, zero, suc, ◌+◌, ◌-◌, ◌*◌, ◌/◌, ◌%◌, ◌≤◌, ◌<◌, ◌≡◌, ◌≢◌, refl, sym, ap, ap₂, ◌∙◌, inl, inr,
  Option, none, some, [], ◌∷◌, length, get_or, ltb, ◌==◌, if◌then◌else◌, Bool-cases, Option-cases,
  ltb→lt, ltb→le, ==→eq, ==→ne, arith, min,
}
use mathlib.Core.Option.{map}
use linux_cpp.PageTable.{u64, u32, next, next_pgd, remap_pmd_range, remap_pgds, Pgds, Pmds}
use linux_cpp.PageTable.Entry.{
  mapped, mapped_above, mapped_from, mapped_cut, entry2?, entry3, entry3_first, entry3_later,
  IsPmds, ArePgds,
}
use linux_cpp.PageTable.PmdTable.{TableMaps2, remap_pmd_range-TableMaps2}

-- `o` is the list of tables `es`, of which the first starts at page `b`, with the pages from `p` to
-- below `q` mapped.
abbrev pub Maps : ℕ → Pgds → ℕ → ℕ → ℕ → Option Pgds → Type 0
Maps b es p q x none = ⊥
Maps b es p q x (some ts) =
    (length ts ≡ length es)
    × ArePgds ts
    × ((n : ℕ) → entry3 ts n ≡ mapped p q x (b + n) (entry3 es n))

next_pgd_page :
    (b p q m : ℕ)
    → b ≡ p / 64 * 64
    → p < q
    → q * 64 < u32
    → m ≡ min (b + 64) q
    → next_pgd (p * 64) (q * 64) % u32 ≡ m * 64
unfolding next
next_pgd_page b p q m base h w e = ground arith

Maps-cons :
    (b p q x : ℕ) (e : Option Pmds) (es : Pgds) (t : Pmds) (o : Option Pgds)
    → p < b + 64
    → TableMaps2 b e p (min (b + 64) q) x (some t)
    → Maps (b + 64) es (b + 64) q x o
    → Maps b (e ∷ es) p q x (map (λ ts. some t ∷ ts) o)
Maps-cons b p q x e es t none h head rest = rest
Maps-cons b p q x e es t (some ts) h (len, head) (lens, shape, rest) =
    (omega arith, shapes, entries)
  where
    shapes : (j : ℕ) → IsPmds (get_or (some t ∷ ts) j none)
    shapes zero = len
    shapes (suc j) = shape j

    later :
        (k : ℕ)
        → entry3 (some t ∷ ts) (64 + k) ≡ mapped p q x (b + (64 + k)) (entry3 (e ∷ es) (64 + k))
    later k =
        let page : b + 64 + k ≡ b + (64 + k) = omega arith in
        entry3_later (some t) ts k
        ∙ rest k
        ∙ mapped_from p (b + 64) q x (b + 64 + k) (entry3 es k) (omega arith) (omega arith)
        ∙ ap₂ (λ n v. mapped p q x n v) page (sym (entry3_later e es k))

    entries : (n : ℕ) → entry3 (some t ∷ ts) n ≡ mapped p q x (b + n) (entry3 (e ∷ es) n)
    entries n = elim (Bool-cases (ltb n 64)) [
      | inl c ↦
          let first : n < 64 = ltb→lt n 64 c in
          rw (entry3_first (some t) ts n first, entry3_first e es n first, head n)
            (mapped_cut p (b + 64) q x (b + n) (entry2? e n) (omega arith))
      | inr c ↦
          let past : n ≡ 64 + (n - 64) = omega (arith, ltb→le n 64 c) in
          rw (← past) at (later (n - 64))
    ]

Maps-nothing : (es : Pgds) (b q x : ℕ) → q ≤ b → ArePgds es → Maps b es b q x (some es)
Maps-nothing es b q x h shape =
    (refl, shape, λ n. sym (mapped_above b q x (b + n) (entry3 es n) (omega arith)))

pgds_step : Pmds → Pgds → ℕ → ℕ → ℕ → Option Pgds
pgds_step t es end to paddr =
    if end == to then some (some t ∷ es) else map (λ ts. some t ∷ ts) (remap_pgds es end to paddr)

pgds_enters :
    (e : Option Pmds) (es : Pgds) (start to paddr : ℕ) (t : Pmds)
    → remap_pmd_range e start (next_pgd start to % u32) ((paddr + start) % u64) ≡ some t
    → remap_pgds (e ∷ es) start to paddr ≡ pgds_step t es (next_pgd start to % u32) to paddr
unfolding remap_pgds pgds_step
pgds_enters e es start to paddr t m = rw (remap_pgds, m) refl

pgds_mapped :
    (e : Option Pmds) (es : Pgds) (start to paddr end : ℕ) (t : Pmds)
    → next_pgd start to % u32 ≡ end
    → remap_pmd_range e start end ((paddr + start) % u64) ≡ some t
    → remap_pgds (e ∷ es) start to paddr ≡ pgds_step t es end to paddr
pgds_mapped e es start to paddr end t n m =
    pgds_enters e es start to paddr t
      (ap (λ k. remap_pmd_range e start k ((paddr + start) % u64)) n ∙ m)
    ∙ ap (λ k. pgds_step t es k to paddr) n

-- the loop, from the entry in which page `p` lies on
pub remap_pgds-Maps :
    (es : Pgds) (b p q x : ℕ)
    → b ≡ p / 64 * 64
    → p < q
    → q * 64 < u32
    → q ≤ b + 64 * length es
    → x < u64
    → ArePgds es
    → ((n : ℕ) → p ≤ b + n → b + n < q → entry3 es n ≢ 0)
    → Maps b es p q x (remap_pgds es (p * 64) (q * 64) x)
unfolding pgds_step
remap_pgds-Maps [] b p q x base h w l xs shape full = absurd (omega arith)
remap_pgds-Maps (e ∷ es) b p q x base h w l xs shape full =
    let m = min (b + 64) q in
    let step = next_pgd_page b p q m base h w refl in
    let o = remap_pmd_range e (p * 64) (m * 64) ((x + p * 64) % u64) in
    let head : TableMaps2 b e p m x o =
      remap_pmd_range-TableMaps2 e b p m x base (omega arith) (omega arith) (omega arith) xs
        (shape 0) (λ k c d z. full k c (omega arith) (entry3_first e es k (omega arith) ∙ z)) in
    elim (Option-cases o) [
      | inl z ↦ absurd (rw z at head)
      | inr (t, z) ↦
          let first : TableMaps2 b e p m x (some t) = rw z at head in
          rw (pgds_mapped e es (p * 64) (q * 64) x (m * 64) t step z)
            (elim (Bool-cases (m * 64 == q * 64)) [
              | inl c ↦
                  let all : q ≤ b + 64 = omega (arith, ==→eq (m * 64) (q * 64) c) in
                  rw c (
                    Maps-cons b p q x e es t (some es) (omega arith) first
                      (Maps-nothing es (b + 64) q x all (λ j. shape (suc j))))
              | inr c ↦
                  let more : m ≡ b + 64 = ground (arith, ==→ne (m * 64) (q * 64) c) in
                  let more' : b + 64 < q = ground (arith, ==→ne (m * 64) (q * 64) c) in
                  rw (c, more)
                    (Maps-cons b p q x e es t (remap_pgds es ((b + 64) * 64) (q * 64) x)
                      (omega arith) first
                      (remap_pgds-Maps es (b + 64) (b + 64) q x (omega arith) more' w (omega arith)
                        xs (λ j. shape (suc j))
                        (λ n c d z.
                          full (64 + n) (omega arith) (omega arith) (entry3_later e es n ∙ z))))
            ])
    ]
