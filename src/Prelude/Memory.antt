-- ===== src/Prelude/Memory.antt =====
-- `memcpy` and `std::copy` into a block of memory, an array of cells.
use Prim.Native.Nat.{ℕ, zero, suc, ◌+◌, ◌<◌, ◌≤◌}
use mathlib.Core.Path.{◌≡◌, refl, ap, ◌∙◌}
use mathlib.Core.List.{List, [], ◌∷◌}
use native.Mathlib.Omega.{arith}
use linux_cpp.Prelude.Lists.{length, get_or, set, length-set, get_or-set_self, get_or-set_ne}

module _ {ℓ} {A : Type ℓ} where
  -- The cells from `i` on become those of the list; what does not fit is dropped.
  abbrev pub copy_into : List A → ℕ → List A → List A
  copy_into buf i [] = buf
  copy_into buf i (x ∷ xs) = copy_into (set buf i x) (i + 1) xs

  pub length-copy_into : (xs buf : List A) (i : ℕ) → length (copy_into buf i xs) ≡ length buf
  length-copy_into [] buf i = refl
  length-copy_into (x ∷ xs) buf i = length-copy_into xs (set buf i x) (i + 1) ∙ length-set buf i x

  pub get_or-copy_into_out :
      (xs buf : List A) (i j : ℕ) (d : A) → j < i → get_or (copy_into buf i xs) j d ≡ get_or buf j d
  get_or-copy_into_out [] buf i j d h = refl
  get_or-copy_into_out (x ∷ xs) buf i j d h =
      get_or-copy_into_out xs (set buf i x) (i + 1) j d (omega arith)
      ∙ get_or-set_ne buf i j x d (omega arith)

  pub get_or-copy_into_above :
      (xs buf : List A) (i j : ℕ) (d : A)
      → i + length xs ≤ j
      → get_or (copy_into buf i xs) j d ≡ get_or buf j d
  get_or-copy_into_above [] buf i j d h = refl
  get_or-copy_into_above (x ∷ xs) buf i j d h =
      get_or-copy_into_above xs (set buf i x) (i + 1) j d (omega arith)
      ∙ get_or-set_ne buf i j x d (omega arith)

  pub get_or-copy_into_in :
      (xs buf : List A) (i k : ℕ) (d : A)
      → k < length xs
      → i + k < length buf
      → get_or (copy_into buf i xs) (i + k) d ≡ get_or xs k d
  get_or-copy_into_in [] buf i k d h l = absurd (omega arith)
  get_or-copy_into_in (x ∷ xs) buf i zero d h l =
      get_or-copy_into_out xs (set buf i x) (i + 1) (i + 0) d (omega arith)
      ∙ ap (λ t. get_or (set buf i x) t d) (omega arith)
      ∙ get_or-set_self buf i x d (omega arith)
  get_or-copy_into_in (x ∷ xs) buf i (suc k) d h l =
      ap (λ t. get_or (copy_into (set buf i x) (i + 1) xs) t d) (omega arith)
      ∙ get_or-copy_into_in xs (set buf i x) (i + 1) k d (omega arith)
          (omega (arith, length-set buf i x))
