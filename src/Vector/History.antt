-- ===== src/Vector/History.antt =====
-- `insert` of mvector/mvector.h with the growth of the block, and histories of calls against lists.
use linux_cpp.Prelude.{
  ℕ, zero, suc, ◌+◌, ◌-◌, ◌≤◌, ◌≡◌, ◌≢◌, ◌↔◌, inl, inr, refl, ap, ◌∙◌, List, [], ◌∷◌, length, ltb,
  leb, ◌==◌, if_elim, Bool-cases, arith,
}
use linux_cpp.Vector.{Vector, Result, ok, throws, breaks, resize, insert_at, insert}
use linux_cpp.Vector.Contents.{contents, IsValid}
use linux_cpp.Vector.Bounds.{resize-contents, resize-IsValid}
use linux_cpp.Vector.Gap.{with_range}
use linux_cpp.Vector.Refine.{TooShort, Inserts, Inserted, insert_at-Inserted, insert_at-breaks}

module _ {A : Type 0} (junk : A) where
  -- `insert_at` after `resize` by the `n` of `insert`
  resized-Inserts :
      (xs : List A) (k : ℕ) (v : Vector A)
      → IsValid v
      → k ≤ v.sz
      → length xs ≢ 0
      → v.cap ≤ v.sz + length xs
      → Inserts junk v xs k (insert_at xs k (resize junk (v.sz + length xs - v.cap + 1) v))
  unfolding resize
  resized-Inserts xs k v w h p q =
      let n = v.sz + length xs - v.cap + 1 in
      let r = resize junk n v in
      let w' = resize-IsValid junk n v w in
      elim (Bool-cases (ltb r.cap (r.sz + length xs))) [
        | inl e ↦
            rw (insert_at-breaks junk xs k r w' (ground arith))
              (q, ground (arith, w.fits), ground (arith, w.fits))
        | inr e ↦
            grown (insert_at xs k r) (resize-contents junk n v w)
              (insert_at-Inserted junk xs k r w' h (ground arith))
      ]
    where
      grown :
          (o : Result (Vector A))
          → contents (resize junk (v.sz + length xs - v.cap + 1) v) ≡ contents v
          → Inserted junk (resize junk (v.sz + length xs - v.cap + 1) v) xs k o
          → Inserts junk v xs k o
      grown (ok v') e (a, b) = (a, b ∙ ap (with_range junk xs k) e)
      grown throws e z = z
      grown breaks e z = absurd z

  inserted :
      (v : Vector A) (xs : List A) (k : ℕ) (o : Result (Vector A))
      → Inserted junk v xs k o
      → Inserts junk v xs k o
  inserted v xs k (ok v') h = h
  inserted v xs k throws h = h
  inserted v xs k breaks h = absurd h

  with_none : (k : ℕ) (ys : List A) → ys ≡ with_range junk [] k ys
  with_none zero ys = refl
  with_none (suc k) [] = refl
  with_none (suc k) (y ∷ ys) = ap (λ zs. y ∷ zs) (with_none k ys)

  pub insert-Inserts :
      (xs : List A) (k : ℕ) (v : Vector A)
      → IsValid v
      → k ≤ v.sz
      → Inserts junk v xs k (insert junk xs k v)
  unfolding insert
  insert-Inserts [] k v w h = (w, with_none k (contents v))
  insert-Inserts (x ∷ xs) k v w h =
      if_elim (Inserts junk v (x ∷ xs) k) (length (x ∷ xs) == 0) (ok v) _
        (λ e. absurd (ground (arith, e)))
        (λ _.
          if_elim (λ r. Inserts junk v (x ∷ xs) k (insert_at (x ∷ xs) k r))
            (leb v.cap (v.sz + length (x ∷ xs)))
            (resize junk (v.sz + length (x ∷ xs) - v.cap + 1) v) v
            (λ e. resized-Inserts (x ∷ xs) k v w h (λ z. absurd (omega arith)) (ground arith))
            (λ e.
              inserted v (x ∷ xs) k (insert_at (x ∷ xs) k v)
                (insert_at-Inserted junk (x ∷ xs) k v w h (ground arith))))

  -- On a valid vector, and for a range of `n` elements, `insert` at one of its positions writes behind the
  -- block exactly when the old block has no more than `sz + n` places, `n` is more than `sz`, and more
  -- than one place was free.
  pub insert-TooShort :
      (xs : List A) (k : ℕ) (v : Vector A)
      → IsValid v
      → k ≤ v.sz
      → (insert junk xs k v ≡ breaks) ↔ TooShort v (length xs)
  unfolding insert resize
  insert-TooShort xs k v w h = (
    λ e. rw e at (insert-Inserts xs k v w h),
    λ (a, b, c).
        if_elim (λ r. r ≡ breaks) (length xs == 0) (ok v) _ (λ e. absurd (ground (arith, e)))
          (λ _.
            if_elim (λ r. insert_at xs k r ≡ breaks) (leb v.cap (v.sz + length xs))
              (resize junk (v.sz + length xs - v.cap + 1) v) v
              (λ e.
                insert_at-breaks junk xs k (resize junk (v.sz + length xs - v.cap + 1) v)
                  (resize-IsValid junk (v.sz + length xs - v.cap + 1) v w) (ground arith))
              (λ e. absurd (ground (arith, e)))),
  )
