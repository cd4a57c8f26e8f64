-- ===== src/PageTable.antt =====
-- page-table-map/test.cpp: page tables of three levels with 8 entries each, and the walk that maps a
-- range of addresses. An entry of a lowest table is the address of a page, 0 for none; an entry of a
-- higher table is the table that it points to. A pointer into a table is the list of the entries
-- from it on: to step past the last one is `none`, and so is to read through an empty entry, which
-- `clear_pte_range` and `remap_pte_range` do when they print. Any other address is taken to be
-- readable. `unsigned long` has 64 bits and `unsigned` 32.
pub mod Entry
pub mod Ptes
pub mod Pmds
pub mod PmdTable
pub mod Pgds
pub mod Range
pub mod Empty
pub mod Fill
mod Tests
use linux_cpp.Prelude.{
  ℕ, zero, suc, ◌+◌, ◌-◌, ◌*◌, ◌/◌, ◌%◌, ◌^◌, Option, none, some, List, [], ◌∷◌, ◌++◌, ◌==◌, leb,
  if◌then◌else◌, take, drop, replicate, get_or, set,
}
use mathlib.Core.Option.{map}

abbrev pub u64 : ℕ
u64 = 2 ^ 64

abbrev pub u32 : ℕ
u32 = 2 ^ 32

abbrev pub page_size : ℕ
page_size = 64

-- `malloc` and `memset` of a table
abbrev pub empty_ptes : List ℕ
empty_ptes = replicate 8 0

abbrev pub Pmds : Type 0
Pmds = List (Option (List ℕ))

abbrev pub empty_pmds : Pmds
empty_pmds = replicate 8 none

abbrev pub Pgds : Type 0
Pgds = List (Option Pmds)

abbrev pub or_new {ℓ} : {A : Type ℓ} → A → Option A → A
or_new a none = a
or_new a (some t) = t

-- the places in the tables of the page with number `addr`: `pgd_offset`, `pmd_offset`, `pte_offset`
abbrev pub pgd_index : ℕ → ℕ
pgd_index addr = addr / 64 % 8

abbrev pub pmd_index : ℕ → ℕ
pmd_index addr = addr / 8 % 8

abbrev pub pte_index : ℕ → ℕ
pte_index addr = addr % 8

-- the end of the piece of 2 ^ k bytes in which `addr` lies, or `bound`
pub next : ℕ → ℕ → ℕ → ℕ
next k addr bound =
    let ret = (addr + 2 ^ k) % u64 / 2 ^ k * 2 ^ k in if leb bound ret then bound else ret

abbrev pub next_pte : ℕ → ℕ → ℕ
next_pte = next 6

abbrev pub next_pmd : ℕ → ℕ → ℕ
next_pmd = next 9

abbrev pub next_pgd : ℕ → ℕ → ℕ
next_pgd = next 12

-- `paddr -= from`
abbrev pub minus64 : ℕ → ℕ → ℕ
minus64 a b = (a + u64 - b) % u64

-- the loop of `remap_pte_range`; `paddr` is the linear offset
pub remap_ptes : List ℕ → ℕ → ℕ → ℕ → Option (List ℕ)
remap_ptes [] start to paddr = none
remap_ptes (e ∷ es) start to paddr =
    let pstart = (paddr + start) % u64 in
    let next = next_pte start to in
    let rest = remap_ptes es next to paddr in
    if e == 0 then none else if next == to then some (pstart ∷ es) else map (λ t. pstart ∷ t) rest

pub remap_pte_range : Option (List ℕ) → ℕ → ℕ → ℕ → Option (List ℕ)
remap_pte_range pmd from to paddr =
    let table = or_new empty_ptes pmd in
    let index = pte_index (from / page_size) in
    map (λ t. take index table ++ t) (remap_ptes (drop index table) from to (minus64 paddr from))

-- the loop of `remap_pmd_range`
pub remap_pmds : Pmds → ℕ → ℕ → ℕ → Option Pmds
remap_pmds [] start to paddr = none
remap_pmds (e ∷ es) start to paddr =
    let pstart = (paddr + start) % u64 in
    let next = next_pmd start to % u32 in
    let rest = remap_pmds es next to paddr in
    elim (remap_pte_range e start next pstart) [
      | none ↦ none
      | some t ↦ if next == to then some (some t ∷ es) else map (λ ts. some t ∷ ts) rest
    ]

pub remap_pmd_range : Option Pmds → ℕ → ℕ → ℕ → Option Pmds
remap_pmd_range pgd from to paddr =
    let table = or_new empty_pmds pgd in
    let index = pmd_index (from / page_size) in
    map (λ t. take index table ++ t) (remap_pmds (drop index table) from to (minus64 paddr from))

-- the loop of `remap_range`
pub remap_pgds : Pgds → ℕ → ℕ → ℕ → Option Pgds
remap_pgds [] start end paddr = none
remap_pgds (e ∷ es) start end paddr =
    let pstart = (paddr + start) % u64 in
    let next = next_pgd start end % u32 in
    let rest = remap_pgds es next end paddr in
    elim (remap_pmd_range e start next pstart) [
      | none ↦ none
      | some t ↦ if next == end then some (some t ∷ es) else map (λ ts. some t ∷ ts) rest
    ]

pub remap_range : Pgds → ℕ → ℕ → ℕ → Option Pgds
remap_range g_pgd from0 len paddr =
    let end0 = (from0 + len) % u32 in
    let from = from0 / page_size * page_size in
    let end = (end0 + page_size - 1) % u32 / page_size * page_size in
    let paddr' = minus64 (paddr / page_size * page_size) from in
    let index = pgd_index (from / page_size) in
    map (λ t. take index g_pgd ++ t) (remap_pgds (drop index g_pgd) (from % u32) end paddr')

-- one round of the first loop of `main`: the entry of page `i` gets the address of a new page
pub store : Pgds → ℕ → ℕ → Pgds
store g i page =
    let pmds = or_new empty_pmds (get_or g (pgd_index i) none) in
    let ptes = or_new empty_ptes (get_or pmds (pmd_index i) none) in
    set g (pgd_index i) (some (set pmds (pmd_index i) (some (set ptes (pte_index i) page))))

-- the first loop of `main` up to page `i`, with the addresses that `malloc` returns
pub fill : (ℕ → ℕ) → ℕ → Pgds
fill page zero = replicate 8 none
fill page (suc i) = store (fill page i) i (page i)
