-- ===== src/Cache/Counts.antt =====
-- Counting for cache/cache.h: how often an object stands in a list, sums over the objects of a slab,
-- and the free list that `free` and `buf_ctl` link.
use linux_cpp.Prelude.{
  ℕ, zero, suc, ◌+◌, ◌-◌, ◌≤◌, ◌<◌, ◌≡◌, refl, ◌==◌, List, [], ◌∷◌, ◌++◌, length, get_or, set,
  tabulate, if◌then◌else◌, arith, Bool-cases, inl, inr, ==→eq, ==→ne, ne→==, eq→==, get_or-set_ne,
  get_or-set_self, length-set, length-tabulate,
}
use linux_cpp.Cache.{buf_end}

unfoldable pub count : ℕ → List ℕ → ℕ
count a [] = 0
count a (x ∷ xs) = (if x == a then 1 else 0) + count a xs

pub count_head : (a : ℕ) (xs : List ℕ) → count a (a ∷ xs) ≡ suc (count a xs)
unfolding count
count_head a xs = rw (eq→== a a refl) (omega arith)

pub count-append : (a : ℕ) (xs ys : List ℕ) → count a (xs ++ ys) ≡ count a xs + count a ys
unfolding count
count-append a [] ys = omega arith
count-append a (x ∷ xs) ys = omega (arith, count-append a xs ys)

-- `f 0 + … + f ( n - 1 )`
unfoldable pub total : (ℕ → ℕ) → ℕ → ℕ
total f zero = 0
total f (suc n) = f n + total f n

pub le-total : (f : ℕ → ℕ) (n i : ℕ) → i < n → f i ≤ total f n
unfolding total
le-total f zero i h = absurd (omega arith)
le-total f (suc n) i h = elim (Bool-cases (i == n)) [
  | inl e ↦ rw (==→eq i n e) (omega arith)
  | inr e ↦ omega (arith, le-total f n i (omega (arith, h, ==→ne i n e)))
]

total_zeros : (f : ℕ → ℕ) (n : ℕ) → ((i : ℕ) → i < n → f i ≡ 0) → total f n ≡ 0
unfolding total
total_zeros f zero h = refl
total_zeros f (suc n) h =
    omega (arith, h n (omega arith), total_zeros f n (λ i p. h i (omega arith)))

total_ones : (f : ℕ → ℕ) (n : ℕ) → ((i : ℕ) → i < n → f i ≡ 1) → total f n ≡ n
unfolding total
total_ones f zero h = refl
total_ones f (suc n) h = omega (arith, h n (omega arith), total_ones f n (λ i p. h i (omega arith)))

total-add : (f g : ℕ → ℕ) (n : ℕ) → total (λ i. f i + g i) n ≡ total f n + total g n
unfolding total
total-add f g zero = refl
total-add f g (suc n) = omega (arith, total-add f g n)

abbrev pub Below : ℕ → List ℕ → Type 0
Below n [] = Unit
Below n (x ∷ xs) = (x < n) × Below n xs

total_single : (x n : ℕ) → x < n → total (λ i. if x == i then 1 else 0) n ≡ 1
unfolding total
total_single x zero h = absurd (omega arith)
total_single x (suc n) h = elim (Bool-cases (x == n)) [
  | inl e ↦ rw e (
      omega (
        arith,
        total_zeros (λ i. if x == i then 1 else 0) n
            (λ i p. rw (ne→== x i (omega (arith, ==→eq x n e))) refl),
      ))
  | inr e ↦ rw e (omega (arith, total_single x n (omega (arith, h, ==→ne x n e))))
]

total-count : (xs : List ℕ) (n : ℕ) → Below n xs → total (λ i. count i xs) n ≡ length xs
unfolding count
total-count [] n b = total_zeros _ n (λ i p. refl)
total-count (x ∷ xs) n b = omega (
  arith,
  total-add (λ i. if x == i then 1 else 0) (λ i. count i xs) n,
  total_single x n b.0,
  total-count xs n b.1,
)

-- Where each number below `n` stands once, in a list or elsewhere, the others count those elsewhere.
pub total_others :
    (xs : List ℕ) (f : ℕ → ℕ) (n : ℕ)
    → Below n xs
    → ((i : ℕ) → i < n → count i xs + f i ≡ 1)
    → total f n + length xs ≡ n
total_others xs f n b h = omega (
  arith,
  total-add (λ i. count i xs) f n,
  total_ones (λ i. count i xs + f i) n h,
  total-count xs n b,
)

-- `xs` is what `free` and `buf_ctl` link, up to `BUF_END`
abbrev pub Linked : List ℕ → ℕ → List ℕ → Type 0
Linked ctl f [] = f ≡ buf_end
Linked ctl f (x ∷ xs) = (f ≡ x) × (x < length ctl) × Linked ctl (get_or ctl x buf_end) xs

pub Linked-Below : (ctl : List ℕ) (f : ℕ) (xs : List ℕ) → Linked ctl f xs → Below (length ctl) xs
Linked-Below ctl f [] h = tt
Linked-Below ctl f (x ∷ xs) h = (h.1, Linked-Below ctl _ xs h.2)

pub set-Linked :
    (ctl : List ℕ) (f i v : ℕ) (xs : List ℕ)
    → count i xs ≡ 0
    → Linked ctl f xs
    → Linked (set ctl i v) f xs
unfolding count
set-Linked ctl f i v [] c h = h
set-Linked ctl f i v (x ∷ xs) c h = (
  h.0,
  omega (arith, h.1, length-set ctl i v),
  rw (get_or-set_ne ctl i x v buf_end (λ e. ground arith))
      (set-Linked ctl _ i v xs (ground arith) h.2),
)

unfoldable pub upto : ℕ → ℕ → List ℕ
upto j zero = []
upto j (suc m) = j ∷ upto (suc j) m

pub length-upto : (j m : ℕ) → length (upto j m) ≡ m
unfolding upto
length-upto j zero = refl
length-upto j (suc m) = omega (arith, length-upto (suc j) m)

count-upto_below : (i j m : ℕ) → i < j → count i (upto j m) ≡ 0
unfolding upto count
count-upto_below i j zero h = refl
count-upto_below i j (suc m) h = ground (arith, count-upto_below i (suc j) m (omega arith))

pub count-upto : (i j m : ℕ) → j ≤ i → i < j + m → count i (upto j m) ≡ 1
unfolding upto count
count-upto i j zero h l = absurd (omega arith)
count-upto i j (suc m) h l = elim (Bool-cases (j == i)) [
  | inl e ↦
      rw e (omega (arith, ==→eq j i e, count-upto_below i (suc j) m (omega (arith, ==→eq j i e))))
  | inr e ↦
      rw e (omega (arith, count-upto i (suc j) m (omega (arith, h, ==→ne j i e)) (omega arith)))
]

get_or-tabulate_in : (f : ℕ → ℕ) (n i d : ℕ) → i < n → get_or (tabulate f n) i d ≡ f i
get_or-tabulate_in f zero i d h = absurd (omega arith)
get_or-tabulate_in f (suc n) zero d h = refl
get_or-tabulate_in f (suc n) (suc i) d h = get_or-tabulate_in (λ j. f (suc j)) n i d (omega arith)

-- what `__alloc_slab` writes links all the objects, from the first on
pub upto-Linked :
    (n j m : ℕ) → j + suc m ≡ n → Linked (set (tabulate suc n) (n - 1) buf_end) j (upto j (suc m))
unfolding upto
upto-Linked n j zero e =
    let last : n - 1 ≡ j = omega arith in
    (
      refl,
      omega (arith, length-set (tabulate suc n) (n - 1) buf_end, length-tabulate suc n),
      rw last (
          get_or-set_self (tabulate suc n) j buf_end buf_end
            (omega (arith, length-tabulate suc n))),
    )
upto-Linked n j (suc m) e = (
  refl,
  omega (arith, length-set (tabulate suc n) (n - 1) buf_end, length-tabulate suc n),
  rw
      (
        get_or-set_ne (tabulate suc n) (n - 1) j buf_end buf_end (omega arith),
        get_or-tabulate_in suc n j buf_end (omega arith),
      )
      (upto-Linked n (suc j) m (omega arith)),
)
