-- ===== src/Blocks/Pages.antt =====
-- `get_one_page` and `free_one_page` of filesystem-block-manager/test.cpp.
use linux_cpp.Prelude.{
  ℕ, zero, suc, ◌<◌, ◌≡◌, ◌≢◌, refl, sym, ap, List, [], ◌∷◌, length, get_or, Option, none, some,
  ◌==◌, if_elim, ==→eq, ==→ne, arith,
}
use linux_cpp.Blocks.{next_page, get_one_page, free_one_page}

-- What `get_one_page` owes for the page bitmap `bs`: the first page that is free, marked as used, and
-- given back by `free_one_page`; or nothing, when no page is free.
abbrev pub Takes : List ℕ → Option ℕ → List ℕ → Type 0
Takes bs none bs' = (bs' ≡ bs) × ((j : ℕ) → j < length bs → get_or bs j 0 ≢ 0)
Takes bs (some i) bs' =
    (i < length bs)
    × (get_or bs i 0 ≡ 0)
    × ((j : ℕ) → j < i → get_or bs j 0 ≢ 0)
    × (get_or bs' i 0 ≡ 1)
    × (free_one_page i bs' ≡ bs)

later-Takes :
    (b : ℕ) (bs bs' : List ℕ) (page : Option ℕ)
    → b ≢ 0
    → Takes bs page bs'
    → Takes (b ∷ bs) (next_page page) (b ∷ bs')
unfolding free_one_page
later-Takes b bs bs' none h (e, f) = (ap (λ xs. b ∷ xs) e, before)
  where
    before : (j : ℕ) → j < suc (length bs) → get_or (b ∷ bs) j 0 ≢ 0
    before zero l = h
    before (suc j) l = f j (omega arith)
later-Takes b bs bs' (some i) h (l, z, f, one, e) =
    (omega arith, z, before, one, ap (λ xs. b ∷ xs) e)
  where
    before : (j : ℕ) → j < suc i → get_or (b ∷ bs) j 0 ≢ 0
    before zero l = h
    before (suc j) l = f j (omega arith)

-- `get_one_page` takes the first free page and marks it as used, and `free_one_page` of that page
-- restores the page bitmap; it returns NULL and changes nothing exactly when no page is free.
pub free_one_page-get_one_page : (bs : List ℕ) → Takes bs (get_one_page bs).0 (get_one_page bs).1
unfolding get_one_page free_one_page
free_one_page-get_one_page [] = (refl, λ j l. absurd (omega arith))
free_one_page-get_one_page (b ∷ bs) =
    let (page, bs') = get_one_page bs in
    if_elim (λ (r : Option ℕ × List ℕ). Takes (b ∷ bs) r.0 r.1) (b == 0) (some 0, 1 ∷ bs)
      (next_page page, b ∷ bs')
      (λ e. (
        omega arith,
        ==→eq b 0 e,
        λ j l. absurd (omega arith),
        refl,
        ap (λ v. v ∷ bs) (sym (==→eq b 0 e)),
      ))
      (λ n. later-Takes b bs bs' page (==→ne b 0 n) (free_one_page-get_one_page bs))
