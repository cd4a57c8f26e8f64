-- ===== src/PageTable/Ptes.antt =====
-- `remap_pte_range` of page-table-map/test.cpp.
use linux_cpp.Prelude.{
  ℕ, zero, suc, ◌+◌, ◌-◌, ◌*◌, ◌/◌, ◌%◌, ◌≤◌, ◌<◌, ◌≡◌, ◌≢◌, refl, sym, ap, ◌∙◌, inl, inr, false,
  Option, none, some, List, [], ◌∷◌, length, get_or, take, drop, ◌++◌, length-append, length-take,
  length-drop, get_or-drop, get_or-splice_left, get_or-splice_right, get_or-replicate_same, ap₂,
  ltb, ◌==◌, Bool-cases, ltb→lt, ltb→le, ==→eq, ==→ne, ne→==, arith,
}
use mathlib.Core.Option.{map}
use linux_cpp.PageTable.{
  u64, u32, next, next_pte, minus64, remap_ptes, remap_pte_range, pte_index, page_size, or_new,
  empty_ptes,
}
use linux_cpp.PageTable.Entry.{
  mapped, mapped_in, mapped_below, mapped_above, mapped_from, entry1, IsPtes,
}

-- `o` is the list of entries `es`, of which the first is that of page `b`, with the pages from `p`
-- to below `q` mapped.
abbrev pub Maps : ℕ → List ℕ → ℕ → ℕ → ℕ → Option (List ℕ) → Type 0
Maps b es p q x none = ⊥
Maps b es p q x (some t) =
    (length t ≡ length es) × ((j : ℕ) → get_or t j 0 ≡ mapped p q x (b + j) (get_or es j 0))

next_pte_page : (p q : ℕ) → p < q → q * 64 < u32 → next_pte (p * 64) (q * 64) ≡ suc p * 64
unfolding next
next_pte_page p q h b = ground arith

Maps-cons :
    (e : ℕ) (es : List ℕ) (p q x : ℕ) (o : Option (List ℕ))
    → p < q
    → Maps (suc p) es (suc p) q x o
    → Maps p (e ∷ es) p q x (map (λ t. (x + p * 64) % u64 ∷ t) o)
Maps-cons e es p q x none h m = m
Maps-cons e es p q x (some t) h (len, m) = (omega arith, entries)
  where
    entries :
        (j : ℕ) → get_or ((x + p * 64) % u64 ∷ t) j 0 ≡ mapped p q x (p + j) (get_or (e ∷ es) j 0)
    entries zero =
        let same : p ≡ p + 0 = omega arith in
        ap (λ n. (x + n * 64) % u64) same
        ∙ sym (mapped_in p q x (p + 0) e (omega arith) (omega arith))
    entries (suc j) =
        let same : suc p + j ≡ p + suc j = omega arith in
        m j
        ∙ mapped_from p (suc p) q x (suc p + j) (get_or es j 0) (omega arith) (omega arith)
        ∙ ap (λ n. mapped p q x n (get_or es j 0)) same

Maps-nothing : (es : List ℕ) (p x : ℕ) → Maps p es p p x (some es)
Maps-nothing es p x = (refl, λ j. sym (mapped_above p p x (p + j) (get_or es j 0) (omega arith)))

-- the loop, from the entry of page `p` on
remap_ptes-Maps :
    (es : List ℕ) (p q x : ℕ)
    → p < q
    → q * 64 < u32
    → q ≤ p + length es
    → ((j : ℕ) → p + j < q → get_or es j 0 ≢ 0)
    → Maps p es p q x (remap_ptes es (p * 64) (q * 64) x)
unfolding remap_ptes
remap_ptes-Maps [] p q x h b l full = absurd (omega arith)
remap_ptes-Maps (e ∷ es) p q x h b l full =
    let there : (e == 0) ≡ false = ne→== e 0 (full 0 (omega arith)) in
    let step = next_pte_page p q h b in
    elim (Bool-cases (suc p * 64 == q * 64)) [
      | inl t ↦
          let end : q ≡ suc p = omega (arith, ==→eq (suc p * 64) (q * 64) t) in
          rw (there, step, t, end)
            (Maps-cons e es p (suc p) x (some es) (omega arith) (Maps-nothing es (suc p) x))
      | inr t ↦
          let more : suc p < q = ground (arith, ==→ne (suc p * 64) (q * 64) t) in
          rw (there, step, t)
            (Maps-cons e es p q x (remap_ptes es (suc p * 64) (q * 64) x) h (
              remap_ptes-Maps es (suc p) q x more b (omega arith)
                (λ j k. full (suc j) (omega arith))))
    ]

pub new_entry : (e : Option (List ℕ)) (k : ℕ) → get_or (or_new empty_ptes e) k 0 ≡ entry1 e k
new_entry none k = get_or-replicate_same 8 0 k
new_entry (some t) k = refl

pub new-length : (e : Option (List ℕ)) → IsPtes e → length (or_new empty_ptes e) ≡ 8
new-length none h = refl
new-length (some t) h = h

-- `o` is the table `e`, of which the first entry is that of page `b`, with the pages from `p` to
-- below `q` mapped.
abbrev pub TableMaps : ℕ → Option (List ℕ) → ℕ → ℕ → ℕ → Option (List ℕ) → Type 0
TableMaps b e p q x none = ⊥
TableMaps b e p q x (some t) =
    (length t ≡ 8) × ((k : ℕ) → get_or t k 0 ≡ mapped p q x (b + k) (entry1 e k))

spliced-TableMaps :
    (b i p q x : ℕ) (e : Option (List ℕ)) (table : List ℕ) (o : Option (List ℕ))
    → b + i ≡ p
    → i < 8
    → length table ≡ 8
    → ((k : ℕ) → get_or table k 0 ≡ entry1 e k)
    → Maps p (drop i table) p q x o
    → TableMaps b e p q x (map (λ t. take i table ++ t) o)
spliced-TableMaps b i p q x e table none h l len old m = m
spliced-TableMaps b i p q x e table (some t) h l len old (lent, m) = (
  omega (arith, length-append (take i table) t, length-take i table, length-drop i table),
  entries,
)
  where
    entries : (k : ℕ) → get_or (take i table ++ t) k 0 ≡ mapped p q x (b + k) (entry1 e k)
    entries k = elim (Bool-cases (ltb k i)) [
      | inl c ↦
          let below : k < i = ltb→lt k i c in
          get_or-splice_left i table t k 0 below (omega arith)
          ∙ old k
          ∙ sym (mapped_below p q x (b + k) (entry1 e k) (omega arith))
      | inr c ↦
          let j = k - i in
          let from : k ≡ i + j = omega (arith, ltb→le k i c) in
          let page : p + j ≡ b + k = omega (arith, ltb→le k i c) in
          let was : get_or (drop i table) j 0 ≡ entry1 e k =
            get_or-drop i j table 0 ∙ ap (λ n. get_or table n 0) (sym from) ∙ old k in
          ap (λ n. get_or (take i table ++ t) n 0) from
          ∙ get_or-splice_right i table t j 0 (omega arith)
          ∙ m j
          ∙ ap₂ (λ n v. mapped p q x n v) page was
    ]

-- `remap_pte_range` maps the pages from `p` to below `q` of a table whose first page is `b`.
pub remap_pte_range-TableMaps :
    (e : Option (List ℕ)) (b p q x : ℕ)
    → b ≡ p / 8 * 8
    → p < q
    → q ≤ b + 8
    → q * 64 < u32
    → x < u64
    → IsPtes e
    → ((k : ℕ) → p ≤ b + k → b + k < q → entry1 e k ≢ 0)
    → TableMaps b e p q x (remap_pte_range e (p * 64) (q * 64) ((x + p * 64) % u64))
unfolding remap_pte_range
remap_pte_range-TableMaps e b p q x base h end w xs shape full =
    let i = pte_index (p * 64 / page_size) in
    let index : pte_index (p * 64 / page_size) ≡ p % 8 = omega arith in
    let table = or_new empty_ptes e in
    let offset : minus64 ((x + p * 64) % u64) (p * 64) ≡ x = omega arith in
    let len = new-length e shape in
    let there : (j : ℕ) → p + j < q → get_or (drop (p % 8) table) j 0 ≢ 0 = λ j k z.
      full (p % 8 + j) (omega arith) (omega arith)
        (sym (new_entry e (p % 8 + j)) ∙ sym (get_or-drop (p % 8) j table 0) ∙ z) in
    rw (index, offset)
      (spliced-TableMaps b (p % 8) p q x e table
        (remap_ptes (drop (p % 8) table) (p * 64) (q * 64) x) (omega arith) (omega arith) len
        (new_entry e)
        (remap_ptes-Maps (drop (p % 8) table) p q x h w (omega (arith, length-drop (p % 8) table))
          there))
