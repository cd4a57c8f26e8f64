-- ===== src/PageTable/Empty.antt =====
-- `remap_range` of page-table-map/test.cpp for a range of no bytes.
use linux_cpp.Prelude.{
  ℕ, suc, ◌+◌, ◌-◌, ◌*◌, ◌/◌, ◌%◌, ◌<◌, ◌≡◌, refl, sym, ap, ◌∙◌, Option, none, some, List, [], ◌∷◌,
  ◌++◌, take, drop, ◌==◌, if◌then◌else◌, eq→==, arith,
}
use mathlib.Core.Option.{map}
use linux_cpp.PageTable.{
  u64, u32, page_size, minus64, or_new, empty_ptes, empty_pmds, pgd_index, pmd_index, pte_index,
  next, next_pte, next_pmd, next_pgd, remap_ptes, remap_pte_range, remap_pmds, remap_pmd_range,
  remap_pgds, remap_range, Pmds, Pgds,
}

-- From `start`, each loop comes to `end` in one round.
abbrev Stops : ℕ → ℕ → Type 0
Stops start end =
    (next_pte start end ≡ end) × (next_pmd start end % u32 ≡ end) × (next_pgd start end % u32 ≡ end)

Stops-none : (p : ℕ) → p < 512 → Stops (p * 64) (p * 64)
unfolding next
Stops-none p h = (ground arith, ground arith, ground arith)

Stops-page : (p : ℕ) → p < 512 → Stops (p * 64) (suc p * 64)
unfolding next
Stops-page p h = (ground arith, ground arith, ground arith)

-- one round of the loop over a lowest table
ptes_once : List ℕ → ℕ → ℕ → Option (List ℕ)
ptes_once [] start paddr = none
ptes_once (e ∷ es) start paddr = if e == 0 then none else some ((paddr + start) % u64 ∷ es)

remap_ptes_once :
    (es : List ℕ) (start end paddr : ℕ)
    → Stops start end
    → remap_ptes es start end paddr ≡ ptes_once es start paddr
unfolding remap_ptes ptes_once
remap_ptes_once [] start end paddr s = refl
remap_ptes_once (e ∷ es) start end paddr s = rw (s.0, eq→== end end refl) refl

pte_range_once :
    (e : Option (List ℕ)) (start end end' paddr : ℕ)
    → Stops start end
    → Stops start end'
    → remap_pte_range e start end paddr ≡ remap_pte_range e start end' paddr
unfolding remap_pte_range
pte_range_once e start end end' paddr s s' =
    let index = pte_index (start / page_size) in
    let table = or_new empty_ptes e in
    let x = minus64 paddr start in
    ap (map (λ t. take index table ++ t)) (
      remap_ptes_once (drop index table) start end x s
      ∙ sym (remap_ptes_once (drop index table) start end' x s'))

-- one round of the other loops, with the table that the round makes
once {ℓ} : {A : Type ℓ} → Option A → List (Option A) → Option (List (Option A))
once none es = none
once (some t) es = some (some t ∷ es)

after_pte : ℕ → Pmds → ℕ → ℕ → Option (List ℕ) → Option Pmds
after_pte next es end paddr none = none
after_pte next es end paddr (some t) =
    if next == end
    then some (some t ∷ es)
    else map (λ ts. some t ∷ ts) (remap_pmds es next end paddr)

after_pte-once :
    (es : Pmds) (end paddr : ℕ) (o : Option (List ℕ)) → after_pte end es end paddr o ≡ once o es
unfolding after_pte once
after_pte-once es end paddr none = refl
after_pte-once es end paddr (some t) = rw (eq→== end end refl) refl

remap_pmds_enters :
    (e : Option (List ℕ)) (es : Pmds) (start end paddr : ℕ)
    → remap_pmds (e ∷ es) start end paddr
      ≡ after_pte
          (next_pmd start end % u32)
          es
          end
          paddr
          (remap_pte_range e start (next_pmd start end % u32) ((paddr + start) % u64))
unfolding remap_pmds after_pte
remap_pmds_enters e es start end paddr = refl

remap_pmds-once :
    (e : Option (List ℕ)) (es : Pmds) (start end paddr : ℕ)
    → Stops start end
    → remap_pmds (e ∷ es) start end paddr
      ≡ once (remap_pte_range e start end ((paddr + start) % u64)) es
remap_pmds-once e es start end paddr s =
    let y = (paddr + start) % u64 in
    remap_pmds_enters e es start end paddr
    ∙ ap (λ k. after_pte k es end paddr (remap_pte_range e start k y)) s.1
    ∙ after_pte-once es end paddr (remap_pte_range e start end y)

remap_pmds_same :
    (es : Pmds) (start end end' paddr : ℕ)
    → Stops start end
    → Stops start end'
    → remap_pmds es start end paddr ≡ remap_pmds es start end' paddr
unfolding remap_pmds
remap_pmds_same [] start end end' paddr s s' = refl
remap_pmds_same (e ∷ es) start end end' paddr s s' =
    remap_pmds-once e es start end paddr s
    ∙ ap (λ o. once o es) (pte_range_once e start end end' ((paddr + start) % u64) s s')
    ∙ sym (remap_pmds-once e es start end' paddr s')

pmd_range_once :
    (e : Option Pmds) (start end end' paddr : ℕ)
    → Stops start end
    → Stops start end'
    → remap_pmd_range e start end paddr ≡ remap_pmd_range e start end' paddr
unfolding remap_pmd_range
pmd_range_once e start end end' paddr s s' =
    let index = pmd_index (start / page_size) in
    let table = or_new empty_pmds e in
    ap (map (λ t. take index table ++ t))
      (remap_pmds_same (drop index table) start end end' (minus64 paddr start) s s')

after_pmd : ℕ → Pgds → ℕ → ℕ → Option Pmds → Option Pgds
after_pmd next es end paddr none = none
after_pmd next es end paddr (some t) =
    if next == end
    then some (some t ∷ es)
    else map (λ ts. some t ∷ ts) (remap_pgds es next end paddr)

after_pmd-once :
    (es : Pgds) (end paddr : ℕ) (o : Option Pmds) → after_pmd end es end paddr o ≡ once o es
unfolding after_pmd once
after_pmd-once es end paddr none = refl
after_pmd-once es end paddr (some t) = rw (eq→== end end refl) refl

remap_pgds_enters :
    (e : Option Pmds) (es : Pgds) (start end paddr : ℕ)
    → remap_pgds (e ∷ es) start end paddr
      ≡ after_pmd
          (next_pgd start end % u32)
          es
          end
          paddr
          (remap_pmd_range e start (next_pgd start end % u32) ((paddr + start) % u64))
unfolding remap_pgds after_pmd
remap_pgds_enters e es start end paddr = refl

remap_pgds-once :
    (e : Option Pmds) (es : Pgds) (start end paddr : ℕ)
    → Stops start end
    → remap_pgds (e ∷ es) start end paddr
      ≡ once (remap_pmd_range e start end ((paddr + start) % u64)) es
remap_pgds-once e es start end paddr s =
    let y = (paddr + start) % u64 in
    remap_pgds_enters e es start end paddr
    ∙ ap (λ k. after_pmd k es end paddr (remap_pmd_range e start k y)) s.2
    ∙ after_pmd-once es end paddr (remap_pmd_range e start end y)

remap_pgds_same :
    (es : Pgds) (start end end' paddr : ℕ)
    → Stops start end
    → Stops start end'
    → remap_pgds es start end paddr ≡ remap_pgds es start end' paddr
unfolding remap_pgds
remap_pgds_same [] start end end' paddr s s' = refl
remap_pgds_same (e ∷ es) start end end' paddr s s' =
    remap_pgds-once e es start end paddr s
    ∙ ap (λ o. once o es) (pmd_range_once e start end end' ((paddr + start) % u64) s s')
    ∙ sym (remap_pgds-once e es start end' paddr s')

-- `remap_range( from, 0, paddr )` for a `from` that is the start of a page does what the call for
-- that whole page does, `remap_range( from, 64, paddr )`: the loops make one round before they test.
pub remap_range_empty :
    (g : Pgds) (p paddr : ℕ)
    → p < 512
    → remap_range g (p * 64) 0 paddr ≡ remap_range g (p * 64) 64 paddr
unfolding remap_range
remap_range_empty g p paddr h =
    let start : p * 64 / 64 * 64 ≡ p * 64 = omega arith in
    let from : p * 64 / 64 * 64 % u32 ≡ p * 64 = omega arith in
    let end : ((p * 64 + 0) % u32 + page_size - 1) % u32 / page_size * page_size ≡ p * 64 =
      omega arith in
    let end' : ((p * 64 + 64) % u32 + page_size - 1) % u32 / page_size * page_size ≡ suc p * 64 =
      omega arith in
    rw (from, end, end')
      (ap (map (λ t. take (pgd_index (p * 64 / 64 * 64 / page_size)) g ++ t)) (
        remap_pgds_same (drop (pgd_index (p * 64 / 64 * 64 / page_size)) g) (p * 64) (p * 64)
          (suc p * 64) (minus64 (paddr / page_size * page_size) (p * 64 / 64 * 64)) (Stops-none p h)
          (Stops-page p h)))
