-- ===== src/PageTable/Tests.antt =====
-- Runs of page-table-map/test.cpp, and its theorems at the calls of `main`.
use linux_cpp.Prelude.{ℕ, ◌+◌, ◌*◌, ◌/◌, ◌<◌, ◌≡◌, ◌≢◌, refl, Option, none, some, lt→ltb, arith}
use linux_cpp.PageTable.{
  remap_ptes, remap_pte_range, remap_pmds, remap_pmd_range, remap_pgds, remap_range, next, store,
  fill, Pgds,
}
use linux_cpp.PageTable.Entry.{entry3}
use linux_cpp.PageTable.Range.{Remaps, remap_range-Remaps}
use linux_cpp.PageTable.Empty.{remap_range_empty}
use linux_cpp.PageTable.Fill.{fill-entry}

abbrev page : ℕ → ℕ
page n = 4096 + n * 64

abbrev entry_of : ℕ → Option Pgds → ℕ
entry_of n none = 0
entry_of n (some g) = entry3 g n

remap_range_test :
    (entry_of 1 (remap_range (fill page 12) 70 600 4096) ≡ 4096)
    × (entry_of 10 (remap_range (fill page 12) 70 600 4096) ≡ 4096 + 9 * 64)
    × (entry_of 11 (remap_range (fill page 12) 70 600 4096) ≡ page 11)
unfolding remap_range remap_pgds remap_pmd_range remap_pmds remap_pte_range remap_ptes next store
    fill
remap_range_test = (refl, refl, refl)

-- no page is there
remap_range_fault_test : remap_range (fill page 0) 0 64 4096 ≡ none
unfolding remap_range remap_pgds remap_pmd_range remap_pmds remap_pte_range remap_ptes next fill
remap_range_fault_test = refl

there : (n : ℕ) → n < 512 → entry3 (fill page 512) n ≢ 0
there n h e =
    let full : entry3 (fill page 512) n ≡ page n =
      rw (lt→ltb n 512 h) at ((fill-entry page 512 (omega arith)).1 n) in
    omega arith

-- the call of `main`
remap_range-Remaps_example :
    Remaps
      (fill page 512)
      0
      511
      (305419896 / 64 * 64)
      (remap_range (fill page 512) 0 32698 305419896)
remap_range-Remaps_example =
    remap_range-Remaps (fill page 512) 0 32698 305419896 (fill-entry page 512 (omega arith)).0
      (omega arith) (omega arith) (λ n h l. there n (omega arith))

remap_range_empty_example :
    remap_range (fill page 12) (5 * 64) 0 4096 ≡ remap_range (fill page 12) (5 * 64) 64 4096
remap_range_empty_example = remap_range_empty (fill page 12) 5 4096 (omega arith)
