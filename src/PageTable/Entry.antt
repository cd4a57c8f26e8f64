-- ===== src/PageTable/Entry.antt =====
-- What page-table-map/test.cpp finds for a page in a table of each level, and what it finds after a
-- range of pages has been mapped.
use linux_cpp.Prelude.{
  ℕ, suc, ◌+◌, ◌-◌, ◌*◌, ◌/◌, ◌%◌, min, ◌≤◌, ◌<◌, ◌≡◌, refl, ◌&&◌, Option, none, some, List, ◌∷◌,
  length, get_or, ltb, leb, if◌then◌else◌, arith,
}
use linux_cpp.PageTable.{u64, minus64, Pmds, Pgds}

-- the entry of page `n` after the pages from `p` to below `q` have been mapped with the linear
-- offset `x`
pub mapped : ℕ → ℕ → ℕ → ℕ → ℕ → ℕ
mapped p q x n old = if leb p n && ltb n q then (x + n * 64) % u64 else old

pub mapped_in : (p q x n old : ℕ) → p ≤ n → n < q → mapped p q x n old ≡ (x + n * 64) % u64
unfolding mapped
mapped_in p q x n old h h' = ground arith

pub mapped_below : (p q x n old : ℕ) → n < p → mapped p q x n old ≡ old
unfolding mapped
mapped_below p q x n old h = ground arith

pub mapped_above : (p q x n old : ℕ) → q ≤ n → mapped p q x n old ≡ old
unfolding mapped
mapped_above p q x n old h = ground arith

-- from `r` on, it makes no difference where the range starts below `r`
pub mapped_from : (p r q x n old : ℕ) → p ≤ r → r ≤ n → mapped r q x n old ≡ mapped p q x n old
unfolding mapped
mapped_from p r q x n old h h' = ground arith

-- below `c`, it makes no difference if the range is cut off at `c`
pub mapped_cut : (p c q x n old : ℕ) → n < c → mapped p (min c q) x n old ≡ mapped p q x n old
unfolding mapped
mapped_cut p c q x n old h = ground arith

-- what stands for page `n` after the pages from `p` to below `q` have been given the addresses from
-- `a` on
abbrev pub remapped : ℕ → ℕ → ℕ → ℕ → ℕ → ℕ
remapped p q a n old = if leb p n && ltb n q then (a + (n - p) * 64) % u64 else old

pub mapped-remapped :
    (p q a n old : ℕ) → p < 512 → mapped p q (minus64 a (p * 64)) n old ≡ remapped p q a n old
unfolding mapped
mapped-remapped p q a n old h = ground arith

-- the entry of page `n` of a lowest table that may be missing
abbrev pub entry1 : Option (List ℕ) → ℕ → ℕ
entry1 none n = 0
entry1 (some t) n = get_or t n 0

-- the entry of page `n`, counted from the first page of the first of these entries
abbrev pub entry2 : Pmds → ℕ → ℕ
entry2 es n = entry1 (get_or es (n / 8) none) (n % 8)

abbrev pub entry2? : Option Pmds → ℕ → ℕ
entry2? none n = 0
entry2? (some t) n = entry2 t n

abbrev pub entry3 : Pgds → ℕ → ℕ
entry3 es n = entry2? (get_or es (n / 64) none) (n % 64)

-- each table has 8 entries
abbrev pub IsPtes : Option (List ℕ) → Type 0
IsPtes none = 0 ≤ 0
IsPtes (some t) = length t ≡ 8

abbrev pub ArePmds : Pmds → Type 0
ArePmds es = (j : ℕ) → IsPtes (get_or es j none)

abbrev pub IsPmds : Option Pmds → Type 0
IsPmds none = 0 ≤ 0
IsPmds (some t) = (length t ≡ 8) × ArePmds t

abbrev pub ArePgds : Pgds → Type 0
ArePgds es = (j : ℕ) → IsPmds (get_or es j none)

pub entry2_first :
    (e : Option (List ℕ)) (es : Pmds) (n : ℕ) → n < 8 → entry2 (e ∷ es) n ≡ entry1 e n
entry2_first e es n h =
    let q : n / 8 ≡ 0 = omega arith in let r : n % 8 ≡ n = omega arith in rw (q, r) refl

pub entry2_later : (e : Option (List ℕ)) (es : Pmds) (n : ℕ) → entry2 (e ∷ es) (8 + n) ≡ entry2 es n
entry2_later e es n =
    let q : (8 + n) / 8 ≡ suc (n / 8) = omega arith in
    let r : (8 + n) % 8 ≡ n % 8 = omega arith in rw (q, r) refl

pub entry3_first : (e : Option Pmds) (es : Pgds) (n : ℕ) → n < 64 → entry3 (e ∷ es) n ≡ entry2? e n
entry3_first e es n h =
    let q : n / 64 ≡ 0 = omega arith in let r : n % 64 ≡ n = omega arith in rw (q, r) refl

pub entry3_later : (e : Option Pmds) (es : Pgds) (n : ℕ) → entry3 (e ∷ es) (64 + n) ≡ entry3 es n
entry3_later e es n =
    let q : (64 + n) / 64 ≡ suc (n / 64) = omega arith in
    let r : (64 + n) % 64 ≡ n % 64 = omega arith in rw (q, r) refl
