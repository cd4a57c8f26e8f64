-- ===== src/PageTable/Fill.antt =====
-- The loop of `main` of page-table-map/test.cpp that fills the page tables.
use linux_cpp.Prelude.{
  ℕ, zero, suc, ◌+◌, ◌*◌, ◌/◌, ◌%◌, ◌≤◌, ◌<◌, ◌≡◌, refl, sym, ap, ◌∙◌, inl, inr, true, false,
  Option, none, some, List, length, length-set, get_or, set, get_or-set_self, get_or-set_ne,
  get_or-replicate_same, ltb, ◌==◌, if◌then◌else◌, Bool-cases, ==→eq, ==→ne, le→ltb, arith,
}
use linux_cpp.PageTable.{
  Pmds, Pgds, or_new, empty_ptes, empty_pmds, pgd_index, pmd_index, pte_index, store, fill,
}
use linux_cpp.PageTable.Entry.{entry1, entry2, entry2?, entry3, IsPtes, IsPmds}
use linux_cpp.PageTable.Ptes
use linux_cpp.PageTable.PmdTable
use linux_cpp.PageTable.Range.{IsPgds}

-- one write in a list of tables
set-cases {ℓ} :
    {A : Type ℓ}
    → (P : A → Type 0) (xs : List A) (i : ℕ) (v d : A) (j : ℕ) → P v
    → P (get_or xs j d)
    → i < length xs
    → P (get_or (set xs i v) j d)
set-cases P xs i v d j pv h l = elim (Bool-cases (i == j)) [
  | inl e ↦ let same : i ≡ j = ==→eq i j e in rw (← same, get_or-set_self xs i v d l) pv
  | inr e ↦ rw (get_or-set_ne xs i j v d (==→ne i j e)) h
]

ptes-set :
    (e : Option (List ℕ)) (k v j : ℕ)
    → IsPtes e
    → k < 8
    → get_or (set (or_new empty_ptes e) k v) j 0 ≡ (if j == k then v else entry1 e j)
ptes-set e k v j h l =
    let room : k < length (or_new empty_ptes e) = omega (arith, Ptes.new-length e h) in
    elim (Bool-cases (j == k)) [
      | inl c ↦
          let same : j ≡ k = ==→eq j k c in
          rw (c, same) (get_or-set_self (or_new empty_ptes e) k v 0 room)
      | inr c ↦
          rw (c, get_or-set_ne (or_new empty_ptes e) k j v 0 (λ q. ==→ne j k c (sym q)))
            (Ptes.new_entry e j)
    ]

set-IsPtes :
    (e : Option (List ℕ)) (k v : ℕ) → IsPtes e → IsPtes (some (set (or_new empty_ptes e) k v))
set-IsPtes e k v h = length-set (or_new empty_ptes e) k v ∙ Ptes.new-length e h

-- the middle table of an entry with one page stored in it
pmds_with : Option Pmds → ℕ → ℕ → ℕ → Pmds
pmds_with e m k v =
    set (or_new empty_pmds e) m
      (some (set (or_new empty_ptes (get_or (or_new empty_pmds e) m none)) k v))

pmds_with-entry :
    (e : Option Pmds) (m k v n : ℕ)
    → IsPmds e
    → m < 8
    → k < 8
    → entry2 (pmds_with e m k v) n ≡ (if n == m * 8 + k then v else entry2? e n)
unfolding pmds_with
pmds_with-entry e m k v n h l l' =
    let table = or_new empty_pmds e in
    let (len, shape) = PmdTable.new-IsPmds e h in
    let ptes = get_or table m none in
    elim (Bool-cases (n / 8 == m)) [
      | inl c ↦
          let block : n / 8 ≡ m = ==→eq (n / 8) m c in
          let test : (n % 8 == k) ≡ (n == m * 8 + k) = ground arith in
          let was : entry1 ptes (n % 8) ≡ entry2? e n =
            ap (λ b. entry1 (get_or table b none) (n % 8)) (sym block) ∙ PmdTable.new_entry e n in
          rw
            (
              block,
              get_or-set_self table m (some (set (or_new empty_ptes ptes) k v)) none (omega arith),
              ← test,
              ← was,
            )
            (ptes-set ptes k v (n % 8) (shape m) l')
      | inr c ↦
          let other : (n == m * 8 + k) ≡ false = ground (arith, ==→ne (n / 8) m c) in
          rw
            (
              other,
              get_or-set_ne table m (n / 8) (some (set (or_new empty_ptes ptes) k v)) none
                  (λ q. ==→ne (n / 8) m c (sym q)),
            )
            (PmdTable.new_entry e n)
    ]

pmds_with-IsPmds :
    (e : Option Pmds) (m k v : ℕ) → IsPmds e → m < 8 → IsPmds (some (pmds_with e m k v))
unfolding pmds_with
pmds_with-IsPmds e m k v h l =
    let table = or_new empty_pmds e in
    let (len, shape) = PmdTable.new-IsPmds e h in
    let ptes = get_or table m none in
    let new = some (set (or_new empty_ptes ptes) k v) in
    (
      length-set table m new ∙ len,
      λ j.
          set-cases IsPtes table m new none j (set-IsPtes ptes k v (shape m)) (shape j)
            (omega arith),
    )

-- One round of the loop changes the entry of its own page only.
store-entry :
    (g : Pgds) (i v n : ℕ)
    → IsPgds g
    → i < 512
    → entry3 (store g i v) n ≡ (if n == i then v else entry3 g n)
unfolding store pmds_with
store-entry g i v n (len, shape) h =
    let c = pgd_index i in
    let m = pmd_index i in
    let k = pte_index i in
    let e = get_or g c none in
    elim (Bool-cases (n / 64 == c)) [
      | inl t ↦
          let block : n / 64 ≡ c = ==→eq (n / 64) c t in
          let test : (n % 64 == m * 8 + k) ≡ (n == i) = ground (arith, ==→eq (n / 64) c t) in
          rw (block, get_or-set_self g c (some (pmds_with e m k v)) none (omega arith), ← test)
            (pmds_with-entry e m k v (n % 64) (shape c) (omega arith) (omega arith))
      | inr t ↦
          let other : (n == i) ≡ false = ground (arith, ==→ne (n / 64) c t) in
          rw
            (
              other,
              get_or-set_ne g c (n / 64) (some (pmds_with e m k v)) none
                  (λ q. ==→ne (n / 64) c t (sym q)),
            )
            refl
    ]

store-IsPgds : (g : Pgds) (i v : ℕ) → IsPgds g → IsPgds (store g i v)
unfolding store pmds_with
store-IsPgds g i v (len, shape) =
    let c = pgd_index i in
    let e = get_or g c none in
    let new = some (pmds_with e (pmd_index i) (pte_index i) v) in
    (
      length-set g c new ∙ len,
      λ j.
          set-cases IsPmds g c new none j
            (pmds_with-IsPmds e (pmd_index i) (pte_index i) v (shape c) (omega arith)) (shape j)
            (omega arith),
    )

one_more :
    (page : ℕ → ℕ) (i n old : ℕ)
    → old ≡ (if ltb n i then page n else 0)
    → (if n == i then page i else old) ≡ (if ltb n (suc i) then page n else 0)
one_more page i n old h = elim (Bool-cases (n == i)) [
  | inl c ↦
      let same : i ≡ n = sym (==→eq n i c) in
      let below : ltb n (suc i) ≡ true = ground (arith, ==→eq n i c) in rw (c, below) (ap page same)
  | inr c ↦ let test : ltb n (suc i) ≡ ltb n i = ground (arith, ==→ne n i c) in rw (c, test) h
]

-- The loop of `main` that fills the tables, up to page `i`: each page below `i` has the address that
-- `malloc` returned for it, no other page has one, and the tables are full.
pub fill-entry :
    (page : ℕ → ℕ) (i : ℕ)
    → i ≤ 512
    → IsPgds (fill page i) × ((n : ℕ) → entry3 (fill page i) n ≡ (if ltb n i then page n else 0))
unfolding fill
fill-entry page zero h = (
  (refl, λ j. rw (get_or-replicate_same {A = Option Pmds} 8 none j) (omega arith)),
  λ n. rw (get_or-replicate_same {A = Option Pmds} 8 none (n / 64), le→ltb n 0 (omega arith)) refl,
)
fill-entry page (suc i) h =
    let (shape, entries) = fill-entry page i (omega arith) in
    (
      store-IsPgds (fill page i) i (page i) shape,
      λ n.
          store-entry (fill page i) i (page i) n shape h
          ∙ one_more page i n (entry3 (fill page i) n) (entries n),
    )
