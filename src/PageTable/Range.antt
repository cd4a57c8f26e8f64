-- ===== src/PageTable/Range.antt =====
-- `remap_range` of page-table-map/test.cpp.
use linux_cpp.Prelude.{
  ℕ, ◌+◌, ◌-◌, ◌*◌, ◌/◌, ◌%◌, ◌≤◌, ◌<◌, ◌≡◌, ◌≢◌, refl, sym, ap, ap₂, ◌∙◌, inl, inr, Option, none,
  some, length, take, drop, ◌++◌, length-append, length-take, length-drop, get_or-drop,
  get_or-splice_left, get_or-splice_right, ltb, Bool-cases, ltb→lt, ltb→le, arith,
}
use mathlib.Core.Option.{map}
use linux_cpp.PageTable.{u32, minus64, remap_pgds, remap_range, pgd_index, page_size, Pgds}
use linux_cpp.PageTable.Entry.{mapped, mapped_below, remapped, mapped-remapped, entry3, ArePgds}
use linux_cpp.PageTable.Pgds.{Maps, remap_pgds-Maps}

entry3-splice_left :
    (i : ℕ) (xs ys : Pgds) (n : ℕ)
    → n < 64 * i
    → i ≤ length xs
    → entry3 (take i xs ++ ys) n ≡ entry3 xs n
entry3-splice_left i xs ys n h l =
    rw (get_or-splice_left i xs ys (n / 64) none (omega arith) l) refl

entry3-splice_right :
    (i : ℕ) (xs ys : Pgds) (n : ℕ)
    → i ≤ length xs
    → entry3 (take i xs ++ ys) (64 * i + n) ≡ entry3 ys n
entry3-splice_right i xs ys n l =
    let block : (64 * i + n) / 64 ≡ i + n / 64 = omega arith in
    let place : (64 * i + n) % 64 ≡ n % 64 = omega arith in
    rw (block, place, get_or-splice_right i xs ys (n / 64) none l) refl

entry3-drop : (i : ℕ) (xs : Pgds) (n : ℕ) → entry3 (drop i xs) n ≡ entry3 xs (64 * i + n)
entry3-drop i xs n =
    let block : (64 * i + n) / 64 ≡ i + n / 64 = omega arith in
    let place : (64 * i + n) % 64 ≡ n % 64 = omega arith in
    rw (block, place, get_or-drop i (n / 64) xs none) refl

splice-ArePgds :
    (i : ℕ) (xs ys : Pgds) → i ≤ length xs → ArePgds xs → ArePgds ys → ArePgds (take i xs ++ ys)
splice-ArePgds i xs ys l h h' j = elim (Bool-cases (ltb j i)) [
  | inl c ↦ rw (get_or-splice_left i xs ys j none (ltb→lt j i c) l) (h j)
  | inr c ↦
      let past : i + (j - i) ≡ j = omega (arith, ltb→le j i c) in
      let there = get_or-splice_right i xs ys (j - i) none l in rw (← past, there) (h' (j - i))
]

drop-ArePgds : (i : ℕ) (xs : Pgds) → ArePgds xs → ArePgds (drop i xs)
drop-ArePgds i xs h j = rw (get_or-drop i j xs none) (h (i + j))

-- Page tables of the full size.
abbrev pub IsPgds : Pgds → Type 0
IsPgds g = (length g ≡ 8) × ArePgds g

-- The tables `o` are those of `g` with the pages from `p` to below `q` at the addresses from `a` on.
abbrev pub Remaps : Pgds → ℕ → ℕ → ℕ → Option Pgds → Type 0
Remaps g p q a none = ⊥
Remaps g p q a (some g') = IsPgds g' × ((n : ℕ) → entry3 g' n ≡ remapped p q a n (entry3 g n))

spliced-Remaps :
    (i p q a : ℕ) (g : Pgds) (o : Option Pgds)
    → 64 * i ≤ p
    → i < 8
    → p < 512
    → IsPgds g
    → Maps (64 * i) (drop i g) p q (minus64 a (p * 64)) o
    → Remaps g p q a (map (λ t. take i g ++ t) o)
spliced-Remaps i p q a g none h l u shape m = m
spliced-Remaps i p q a g (some t) h l u (len, shape) (lent, shapet, m) = (
  (
    omega (arith, length-append (take i g) t, length-take i g, length-drop i g),
    splice-ArePgds i g t (omega arith) shape shapet,
  ),
  entries,
)
  where
    x : ℕ
    x = minus64 a (p * 64)

    spliced : (n : ℕ) → entry3 (take i g ++ t) n ≡ mapped p q x n (entry3 g n)
    spliced n = elim (Bool-cases (ltb n (64 * i))) [
      | inl c ↦
          let below : n < 64 * i = ltb→lt n (64 * i) c in
          entry3-splice_left i g t n below (omega arith)
          ∙ sym (mapped_below p q x n (entry3 g n) (omega arith))
      | inr c ↦
          let j = n - 64 * i in
          let from : n ≡ 64 * i + j = omega (arith, ltb→le n (64 * i) c) in
          let was : entry3 (drop i g) j ≡ entry3 g n =
            entry3-drop i g j ∙ ap (entry3 g) (sym from) in
          ap (entry3 (take i g ++ t)) from
          ∙ entry3-splice_right i g t j (omega arith)
          ∙ m j
          ∙ ap₂ (λ k v. mapped p q x k v) (sym from) was
    ]

    entries : (n : ℕ) → entry3 (take i g ++ t) n ≡ remapped p q a n (entry3 g n)
    entries n = spliced n ∙ mapped-remapped p q a n (entry3 g n) u

-- the pages of a range of bytes: the first one, and the one behind the last
abbrev pub first_page : ℕ → ℕ
first_page from = from / 64

abbrev pub end_page : ℕ → ℕ → ℕ
end_page from len = (from + len + 63) / 64

-- `remap_range( from, len, paddr )` on full page tables, for a range within the 512 pages that is
-- not empty and whose pages are all there, reads no empty entry and leaves no table: it gives the
-- pages of the range the addresses from `paddr`, rounded down to a page, on, leaves every other page
-- as it was, and the tables stay full.
pub remap_range-Remaps :
    (g : Pgds) (from len paddr : ℕ)
    → IsPgds g
    → first_page from < end_page from len
    → from + len ≤ 512 * 64
    → ((n : ℕ) → first_page from ≤ n → n < end_page from len → entry3 g n ≢ 0)
    → Remaps g
        (first_page from)
        (end_page from len)
        (paddr / 64 * 64)
        (remap_range g from len paddr)
unfolding remap_range
remap_range-Remaps g from len paddr shape h w full =
    let p = from / 64 in
    let q = (from + len + 63) / 64 in
    let i = p / 64 in
    let a = paddr / 64 * 64 in
    let index : pgd_index (from / 64 * 64 / page_size) ≡ p / 64 = omega arith in
    let start : from / 64 * 64 % u32 ≡ p * 64 = omega arith in
    let end : ((from + len) % u32 + page_size - 1) % u32 / page_size * page_size ≡ q * 64 =
      omega arith in
    let there : (n : ℕ) → p ≤ 64 * i + n → 64 * i + n < q → entry3 (drop i g) n ≢ 0 =
      λ n k l z. full (64 * i + n) k l (sym (entry3-drop i g n) ∙ z) in
    rw (index, start, end)
      (spliced-Remaps i p q a g (remap_pgds (drop i g) (p * 64) (q * 64) (minus64 a (p * 64)))
        (omega arith) (omega arith) (omega arith) shape
        (remap_pgds-Maps (drop i g) (64 * i) p q (minus64 a (p * 64)) (omega arith) h (omega arith)
          (omega (arith, length-drop i g)) (omega arith) (drop-ArePgds i g shape.1) there))
