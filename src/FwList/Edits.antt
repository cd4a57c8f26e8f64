-- ===== src/FwList/Edits.antt =====
-- list/fwlist.hpp: the values that the calls leave.
use linux_cpp.Prelude.{
  ℕ, zero, suc, ◌+◌, ◌-◌, ◌≤◌, ◌<◌, ◌≡◌, refl, sym, ap, ap₂, ◌∙◌, List, [], ◌∷◌, ◌++◌, length, take,
  drop, arith, Option, none, some, append-nil, append_assoc, length-append, length-take,
  length-drop, lt→ltb, ltb→lt, ltb→le, inl, inr, ◌⊎◌, replicate, ltb, eq→==, ne→==, if_elim,
  List-cases, take_all, take-append-drop,
}
use linux_cpp.FwList.{
  FwList, hook_after, insert_after, insert_range, erase_after, erase_after_until_end, overwrite,
  assign, append_copies, reverse_loop, reverse,
}

module _ {A : Type 0} where
  take_front : (xs ys : List A) → take (length xs) (xs ++ ys) ≡ xs
  take_front [] ys = refl
  take_front (x ∷ xs) ys = ap (λ t. x ∷ t) (take_front xs ys)

  drop_front : (xs ys : List A) → drop (length xs) (xs ++ ys) ≡ ys
  drop_front [] ys = refl
  drop_front (x ∷ xs) ys = drop_front xs ys

  take-hook :
      (pos : ℕ) (x : A) (l : List A)
      → pos ≤ length l
      → take (suc pos) (hook_after l pos x) ≡ take pos l ++ (x ∷ [])
  unfolding hook_after
  take-hook zero x l h = refl
  take-hook (suc pos) x [] h = absurd (omega (arith, h))
  take-hook (suc pos) x (y ∷ l) h = ap (λ t. y ∷ t) (take-hook pos x l (omega (arith, h)))

  drop-hook :
      (pos : ℕ) (x : A) (l : List A)
      → pos ≤ length l
      → drop (suc pos) (hook_after l pos x) ≡ drop pos l
  unfolding hook_after
  drop-hook zero x l h = refl
  drop-hook (suc pos) x [] h = absurd (omega (arith, h))
  drop-hook (suc pos) x (y ∷ l) h = drop-hook pos x l (omega (arith, h))

  pub length-hook_after :
      (pos : ℕ) (x : A) (l : List A) → length (hook_after l pos x) ≡ suc (length l)
  unfolding hook_after
  length-hook_after pos x l =
      omega
        (arith, length-append (take pos l) (x ∷ drop pos l), length-take pos l, length-drop pos l)

  -- Range inserts put the range behind the place, and count each element twice.
  pub insert_range_lem :
      (pos : ℕ) (xs : List A) (l : FwList A)
      → pos ≤ length l.nodes
      → ((insert_range pos xs l).nodes ≡ take pos l.nodes ++ (xs ++ drop pos l.nodes))
        × ((insert_range pos xs l).sz ≡ l.sz + length xs + length xs)
  unfolding insert_range insert_after
  insert_range_lem pos [] l h = (sym (take-append-drop pos l.nodes), omega arith)
  insert_range_lem pos (x ∷ xs) l h =
      let rest =
        insert_range_lem (suc pos) xs
          (record { nodes = hook_after l.nodes pos x; sz = suc (suc l.sz) })
          (omega (arith, length-hook_after pos x l.nodes, h)) in
      (
        rest.0
            ∙ ap₂ (λ a b. a ++ (xs ++ b)) (take-hook pos x l.nodes h) (drop-hook pos x l.nodes h)
            ∙ append_assoc (take pos l.nodes) (x ∷ []) _,
        omega (arith, rest.1),
      )

  pub append_copies_lem :
      (pos n : ℕ) (x : A) (l : FwList A)
      → pos ≤ length l.nodes
      → ((append_copies pos n x l).nodes ≡ take pos l.nodes ++ (replicate n x ++ drop pos l.nodes))
        × ((append_copies pos n x l).sz ≡ l.sz + n)
  unfolding append_copies insert_after
  append_copies_lem pos zero x l h = (sym (take-append-drop pos l.nodes), omega arith)
  append_copies_lem pos (suc n) x l h =
      let rest =
        append_copies_lem (suc pos) n x (record { nodes = hook_after l.nodes pos x; sz = suc l.sz })
          (omega (arith, length-hook_after pos x l.nodes, h)) in
      (
        rest.0
            ∙ ap₂ (λ a b. a ++ (replicate n x ++ b)) (take-hook pos x l.nodes h)
                (drop-hook pos x l.nodes h)
            ∙ append_assoc (take pos l.nodes) (x ∷ []) _,
        omega (arith, rest.1),
      )

  -- an erase behind `pos` keeps the nodes up to `pos`
  take-erase : (pos : ℕ) (l : List A) → take pos (take pos l ++ drop (suc pos) l) ≡ take pos l
  take-erase zero l = refl
  take-erase (suc pos) [] = refl
  take-erase (suc pos) (x ∷ l) = ap (λ t. x ∷ t) (take-erase pos l)

  length-erase :
      (pos : ℕ) (l : List A)
      → pos < length l
      → suc (length (take pos l ++ drop (suc pos) l)) ≡ length l
  length-erase pos l h = omega (
    arith,
    length-append (take pos l) (drop (suc pos) l),
    length-take pos l,
    length-drop (suc pos) l,
    h,
  )

  pub erase_after-some :
      (pos : ℕ) (l : FwList A)
      → pos < length l.nodes
      → erase_after pos l
        ≡ some (record { nodes = take pos l.nodes ++ drop (suc pos) l.nodes; sz = l.sz - 1 })
  unfolding erase_after
  erase_after-some pos l h = rw (lt→ltb pos (length l.nodes) h) refl

  pub erase_until_lem :
      (rounds pos : ℕ) (l : FwList A)
      → pos < length l.nodes
      → length l.nodes ≤ pos + rounds
      → erase_after_until_end rounds pos l
        ≡ some (record { nodes = take pos l.nodes; sz = l.sz - (length l.nodes - pos) })
  unfolding erase_after_until_end
  erase_until_lem zero pos l h r = absurd (omega (arith, h, r))
  erase_until_lem (suc rounds) pos l h r =
      let kept = take pos l.nodes ++ drop (suc pos) l.nodes in
      let shorter : suc (length kept) ≡ length l.nodes = length-erase pos l.nodes h in
      rw (erase_after-some pos l h, erase_after_until_end)
        (if_elim
          (λ (o : Option (FwList A)).
            o ≡ some (record { nodes = take pos l.nodes; sz = l.sz - (length l.nodes - pos) }))
          (ltb pos (length kept)) _ _
          (λ e.
            erase_until_lem rounds pos (record { nodes = kept; sz = l.sz - 1 }) (ltb→lt _ _ e)
              (omega (arith, shorter, r))
            ∙ ap₂ (λ n z. some (record { nodes = n; sz = z })) (take-erase pos l.nodes)
                (omega (arith, shorter, h)))
          (λ e.
            ap₂ (λ n z. some (record { nodes = n; sz = z }))
              (sym (take_all kept pos (omega (arith, shorter, h, ltb→le _ _ e)))
                ∙ take-erase pos l.nodes)
              (omega (arith, shorter, h, ltb→le _ _ e))))

  -- the loop stops at the end of the list or of the range
  abbrev pub Overwritten : List A → List A → List A × ℕ × List A → Type 0
  Overwritten ys xs (zs, n, rest) =
      (length zs ≡ length ys)
      × (((n ≡ length ys) × (zs ++ rest ≡ xs))
          ⊎ ((n < length ys) × (n ≡ length xs) × (take n zs ≡ xs)))

  pub overwrite-Overwritten : (ys xs : List A) → Overwritten ys xs (overwrite ys xs)
  unfolding overwrite
  overwrite-Overwritten [] xs = (refl, inl (refl, refl))
  overwrite-Overwritten (y ∷ ys) [] = (refl, inr (omega arith, refl, refl))
  overwrite-Overwritten (y ∷ ys) (x ∷ xs) =
      let r = overwrite-Overwritten ys xs in
      (
        ap suc r.0,
        elim (r.1) [
          | inl (e, f) ↦ inl (ap suc e, ap (λ t. x ∷ t) f)
          | inr (l, e, f) ↦ inr (omega (arith, l), ap suc e, ap (λ t. x ∷ t) f)
        ],
      )

  drop_all : (n : ℕ) (xs : List A) → length xs ≤ n → drop n xs ≡ []
  drop_all zero [] h = refl
  drop_all zero (x ∷ xs) h = absurd (omega (arith, h))
  drop_all (suc n) [] h = refl
  drop_all (suc n) (x ∷ xs) h = drop_all n xs (omega (arith, h))

  -- what is put behind the last node
  behind_last : (n : ℕ) (zs xs : List A) → n ≡ length zs → take n zs ++ (xs ++ drop n zs) ≡ zs ++ xs
  behind_last n zs xs e =
      ap₂ (λ a b. a ++ (xs ++ b)) (take_all zs n e) (drop_all n zs (omega (arith, e)))
      ∙ ap (λ t. zs ++ t) (append-nil xs)

  -- `assign( first, last )` returns on every list and for every range of another list, the values are
  -- then those of the range. The size is too large by as much as before and by the number of nodes
  -- added.
  pub assign-range :
      (xs : List A) (l : FwList A)
      → (m : FwList A) × (assign xs l ≡ some m)
        × (m.nodes ≡ xs)
        × ((e : ℕ)
            → l.sz ≡ length l.nodes + e
            → m.sz ≡ length xs + (e + (length xs - length l.nodes)))
  unfolding assign
  assign-range xs l =
      let r = overwrite l.nodes xs in
      let o = overwrite-Overwritten l.nodes xs in
      let m : FwList A = record { nodes = r.0; sz = l.sz } in
      elim (o.1) [
        | inl (e, f) ↦
            let g = insert_range_lem r.1 r.2 m (omega (arith, o.0, e)) in
            (
              insert_range r.1 r.2 m,
              rw (eq→== _ _ e) refl,
              g.0 ∙ behind_last r.1 r.0 r.2 (omega (arith, o.0, e)) ∙ f,
              λ x s. omega (arith, g.1, s, o.0, e, length-append r.0 r.2, ap length f),
            )
        | inr (p, e, f) ↦
            let rest =
              erase_until_lem (length l.nodes) r.1 m (omega (arith, o.0, p)) (omega (arith, o.0)) in
            (
              record { nodes = take r.1 r.0; sz = l.sz - (length r.0 - r.1) },
              rw (ne→== r.1 (length l.nodes) (λ x. absurd (omega (arith, x, p)))) rest,
              f,
              λ x s. omega (arith, s, o.0, e, p),
            )
      ]

  reverse_loop-none : (next : List A) (cur : A) (rest : List A) → reverse_loop next cur rest ≡ none
  unfolding reverse_loop
  reverse_loop-none next cur [] = refl
  reverse_loop-none next cur (temp ∷ rest) = reverse_loop-none (cur ∷ next) temp rest

  -- `reverse` reads through a null pointer on every list.
  pub reverse-none : (l : FwList A) → reverse l ≡ none
  unfolding reverse
  reverse-none l = elim (List-cases l.nodes) [
    | inl e ↦ rw e refl
    | inr (cur, rest, e) ↦ rw e (reverse_loop-none [] cur rest)
  ]
