-- ===== src/PageTable/PmdTable.antt =====
-- `remap_pmd_range` of page-table-map/test.cpp: a middle table with a part of it walked.
use linux_cpp.Prelude.{
  ℕ, ◌+◌, ◌-◌, ◌*◌, ◌/◌, ◌%◌, ◌≤◌, ◌<◌, ◌≡◌, ◌≢◌, refl, sym, ap, ap₂, ◌∙◌, inl, inr, Option, none,
  some, List, length, take, drop, ◌++◌, length-append, length-take, length-drop, get_or-drop,
  get_or-splice_left, get_or-splice_right, get_or-replicate_same, ltb, Bool-cases, ltb→lt, ltb→le,
  arith,
}
use mathlib.Core.Option.{map}
use linux_cpp.PageTable.{
  u64, u32, minus64, remap_pmds, remap_pmd_range, pmd_index, page_size, or_new, empty_pmds, Pmds,
}
use linux_cpp.PageTable.Entry.{mapped, mapped_below, entry2, entry2?, ArePmds, IsPmds}
use linux_cpp.PageTable.Pmds.{Maps, remap_pmds-Maps}

pub new_entry : (e : Option Pmds) (n : ℕ) → entry2 (or_new empty_pmds e) n ≡ entry2? e n
new_entry none n = rw (get_or-replicate_same {A = Option (List ℕ)} 8 none (n / 8)) refl
new_entry (some t) n = refl

pub new-IsPmds : (e : Option Pmds) → IsPmds e → IsPmds (some (or_new empty_pmds e))
new-IsPmds none h =
    (refl, λ j. rw (get_or-replicate_same {A = Option (List ℕ)} 8 none j) (omega arith))
new-IsPmds (some t) h = h

-- `o` is the table `e`, of which the first entry starts at page `b`, with the pages from `p` to
-- below `q` mapped.
abbrev pub TableMaps2 : ℕ → Option Pmds → ℕ → ℕ → ℕ → Option Pmds → Type 0
TableMaps2 b e p q x none = ⊥
TableMaps2 b e p q x (some t) =
    IsPmds (some t) × ((n : ℕ) → entry2 t n ≡ mapped p q x (b + n) (entry2? e n))

entry2-splice_left :
    (i : ℕ) (xs ys : Pmds) (n : ℕ)
    → n < 8 * i
    → i ≤ length xs
    → entry2 (take i xs ++ ys) n ≡ entry2 xs n
entry2-splice_left i xs ys n h l = rw (get_or-splice_left i xs ys (n / 8) none (omega arith) l) refl

entry2-splice_right :
    (i : ℕ) (xs ys : Pmds) (n : ℕ)
    → i ≤ length xs
    → entry2 (take i xs ++ ys) (8 * i + n) ≡ entry2 ys n
entry2-splice_right i xs ys n l =
    let block : (8 * i + n) / 8 ≡ i + n / 8 = omega arith in
    let place : (8 * i + n) % 8 ≡ n % 8 = omega arith in
    rw (block, place, get_or-splice_right i xs ys (n / 8) none l) refl

entry2-drop : (i : ℕ) (xs : Pmds) (n : ℕ) → entry2 (drop i xs) n ≡ entry2 xs (8 * i + n)
entry2-drop i xs n =
    let block : (8 * i + n) / 8 ≡ i + n / 8 = omega arith in
    let place : (8 * i + n) % 8 ≡ n % 8 = omega arith in
    rw (block, place, get_or-drop i (n / 8) xs none) refl

splice-ArePmds :
    (i : ℕ) (xs ys : Pmds) → i ≤ length xs → ArePmds xs → ArePmds ys → ArePmds (take i xs ++ ys)
splice-ArePmds i xs ys l h h' j = elim (Bool-cases (ltb j i)) [
  | inl c ↦ rw (get_or-splice_left i xs ys j none (ltb→lt j i c) l) (h j)
  | inr c ↦
      let past : i + (j - i) ≡ j = omega (arith, ltb→le j i c) in
      let there = get_or-splice_right i xs ys (j - i) none l in rw (← past, there) (h' (j - i))
]

drop-ArePmds : (i : ℕ) (xs : Pmds) → ArePmds xs → ArePmds (drop i xs)
drop-ArePmds i xs h j = rw (get_or-drop i j xs none) (h (i + j))

spliced-TableMaps2 :
    (b i p q x : ℕ) (e : Option Pmds) (table : Pmds) (o : Option Pmds)
    → b + 8 * i ≤ p
    → i < 8
    → IsPmds (some table)
    → ((n : ℕ) → entry2 table n ≡ entry2? e n)
    → Maps (b + 8 * i) (drop i table) p q x o
    → TableMaps2 b e p q x (map (λ t. take i table ++ t) o)
spliced-TableMaps2 b i p q x e table none h l shape old m = m
spliced-TableMaps2 b i p q x e table (some t) h l (len, shape) old (lent, shapet, m) = (
  (
    omega (arith, length-append (take i table) t, length-take i table, length-drop i table),
    splice-ArePmds i table t (omega arith) shape shapet,
  ),
  entries,
)
  where
    entries : (n : ℕ) → entry2 (take i table ++ t) n ≡ mapped p q x (b + n) (entry2? e n)
    entries n = elim (Bool-cases (ltb n (8 * i))) [
      | inl c ↦
          let below : n < 8 * i = ltb→lt n (8 * i) c in
          entry2-splice_left i table t n below (omega arith)
          ∙ old n
          ∙ sym (mapped_below p q x (b + n) (entry2? e n) (omega arith))
      | inr c ↦
          let j = n - 8 * i in
          let from : n ≡ 8 * i + j = omega (arith, ltb→le n (8 * i) c) in
          let page : b + 8 * i + j ≡ b + n = omega (arith, ltb→le n (8 * i) c) in
          let was : entry2 (drop i table) j ≡ entry2? e n =
            entry2-drop i table j ∙ ap (entry2 table) (sym from) ∙ old n in
          ap (entry2 (take i table ++ t)) from
          ∙ entry2-splice_right i table t j (omega arith)
          ∙ m j
          ∙ ap₂ (λ k v. mapped p q x k v) page was
    ]

-- `remap_pmd_range` maps the pages from `p` to below `q` of a table whose first page is `b`.
pub remap_pmd_range-TableMaps2 :
    (e : Option Pmds) (b p q x : ℕ)
    → b ≡ p / 64 * 64
    → p < q
    → q ≤ b + 64
    → q * 64 < u32
    → x < u64
    → IsPmds e
    → ((n : ℕ) → p ≤ b + n → b + n < q → entry2? e n ≢ 0)
    → TableMaps2 b e p q x (remap_pmd_range e (p * 64) (q * 64) ((x + p * 64) % u64))
unfolding remap_pmd_range
remap_pmd_range-TableMaps2 e b p q x base h end w xs shape full =
    let i = p / 8 % 8 in
    let index : pmd_index (p * 64 / page_size) ≡ p / 8 % 8 = omega arith in
    let table = or_new empty_pmds e in
    let offset : minus64 ((x + p * 64) % u64) (p * 64) ≡ x = omega arith in
    let new = new-IsPmds e shape in
    let there : (n : ℕ) → p ≤ b + 8 * i + n → b + 8 * i + n < q → entry2 (drop i table) n ≢ 0 =
      λ n k l z.
        full (8 * i + n) (omega arith) (omega arith)
          (sym (new_entry e (8 * i + n)) ∙ sym (entry2-drop i table n) ∙ z) in
    rw (index, offset)
      (spliced-TableMaps2 b i p q x e table (remap_pmds (drop i table) (p * 64) (q * 64) x)
        (omega arith) (omega arith) new (new_entry e)
        (remap_pmds-Maps (drop i table) (b + 8 * i) p q x (omega arith) h w
          (omega (arith, length-drop i table, new.0)) xs (drop-ArePmds i table new.1) there))
