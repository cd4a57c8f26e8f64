-- ===== src/Tree/Order.antt =====
-- `comp` of list/tree.h is an order of names by length and then by bytes, in which the null pointer
-- is the empty string.
use Prim.Native.Nat.{compare, Ordering}
use Prim.Native.Nat.Ordering.{lt, eq, gt}
use linux_cpp.Prelude.{
  ℕ, ◌≡◌, ◌⊎◌, inl, inr, refl, sym, none, some, List, [], ◌∷◌, length, ◌==◌, if◌then◌else◌, arith,
}
use linux_cpp.Tree.{Name, strcmp, comp}

-- the string that a name stands for
abbrev pub key : Name → List ℕ
key none = []
key (some s) = s

strcmp_refl : (s : List ℕ) → strcmp s s ≡ eq
unfolding strcmp
strcmp_refl [] = refl
strcmp_refl (x ∷ xs) = ground (arith, strcmp_refl xs)

eq_of_strcmp : (s t : List ℕ) → strcmp s t ≡ eq → s ≡ t
unfolding strcmp
eq_of_strcmp [] [] e = refl
eq_of_strcmp [] (y ∷ ys) e = cc
eq_of_strcmp (x ∷ xs) [] e = cc
eq_of_strcmp (x ∷ xs) (y ∷ ys) e = ground (arith, eq_of_strcmp xs ys)

strcmp_flip :
    (s t : List ℕ) → (strcmp s t ≡ lt → strcmp t s ≡ gt) × (strcmp s t ≡ gt → strcmp t s ≡ lt)
unfolding strcmp
strcmp_flip [] [] = ground arith
strcmp_flip [] (y ∷ ys) = ground arith
strcmp_flip (x ∷ xs) [] = ground arith
strcmp_flip (x ∷ xs) (y ∷ ys) = ground (arith, strcmp_flip xs ys)

strcmp_trans : (s t u : List ℕ) → strcmp s t ≡ lt → strcmp t u ≡ lt → strcmp s u ≡ lt
unfolding strcmp
strcmp_trans [] [] u e f = cc
strcmp_trans (x ∷ xs) [] u e f = cc
strcmp_trans [] (y ∷ ys) (z ∷ zs) e f = refl
strcmp_trans [] (y ∷ ys) [] e f = cc
strcmp_trans (x ∷ xs) (y ∷ ys) [] e f = cc
strcmp_trans (x ∷ xs) (y ∷ ys) (z ∷ zs) e f = ground (arith, strcmp_trans xs ys zs)

abbrev by_key : List ℕ → List ℕ → Ordering
by_key s t = if length s == length t then strcmp s t else compare (length s) (length t)

comp-by_key : (a b : Name) → comp a b ≡ by_key (key a) (key b)
unfolding comp strcmp
comp-by_key none none = refl
comp-by_key none (some []) = refl
comp-by_key none (some (x ∷ xs)) = ground arith
comp-by_key (some []) none = refl
comp-by_key (some (x ∷ xs)) none = ground arith
comp-by_key (some s) (some t) = refl

-- Names compare equal exactly when their strings are the same.
pub comp-eq : (a b : Name) → key a ≡ key b → comp a b ≡ eq
comp-eq a b e = rw (comp-by_key a b, e) (ground (arith, strcmp_refl (key b)))

pub eq_of_comp : (a b : Name) → comp a b ≡ eq → key a ≡ key b
eq_of_comp a b e = ground (arith, comp-by_key a b, eq_of_strcmp (key a) (key b))

pub lt_of_gt : (a b : Name) → comp a b ≡ gt → comp b a ≡ lt
lt_of_gt a b e = ground (arith, comp-by_key a b, comp-by_key b a, strcmp_flip (key a) (key b))

pub gt_of_lt : (a b : Name) → comp a b ≡ lt → comp b a ≡ gt
gt_of_lt a b e = ground (arith, comp-by_key a b, comp-by_key b a, strcmp_flip (key a) (key b))

pub comp_trans : (a b c : Name) → comp a b ≡ lt → comp b c ≡ lt → comp a c ≡ lt
comp_trans a b c e f =
    ground (
      arith,
      comp-by_key a b,
      comp-by_key b c,
      comp-by_key a c,
      strcmp_trans (key a) (key b) (key c),
    )

-- Only the strings count.
pub comp_congr : (a b c : Name) → key b ≡ key c → comp a b ≡ comp a c
comp_congr a b c e = ground (arith, comp-by_key a b, comp-by_key a c)

pub congr_comp : (a b c : Name) → key b ≡ key c → comp b a ≡ comp c a
congr_comp a b c e = ground (arith, comp-by_key b a, comp-by_key c a)

pub eq_flip : (a b : Name) → comp a b ≡ eq → comp b a ≡ eq
eq_flip a b e = comp-eq b a (sym (eq_of_comp a b e))

pub Ordering-cases : (o : Ordering) → (o ≡ lt) ⊎ (o ≡ eq) ⊎ (o ≡ gt)
Ordering-cases lt = inl refl
Ordering-cases eq = inr (inl refl)
Ordering-cases gt = inr (inr refl)
