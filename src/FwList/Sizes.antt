-- ===== src/FwList/Sizes.antt =====
-- list/fwlist.hpp: `_M_sz` and the number of nodes.
use linux_cpp.Prelude.{
  ℕ, suc, ◌+◌, ◌-◌, ◌≤◌, ◌<◌, ◌≡◌, refl, ap, List, ◌++◌, length, take, drop, arith, some,
  length-append, length-take, length-drop, replicate, length-replicate, eq→==, ne→==, inl, inr,
}
use linux_cpp.FwList.{
  FwList, Call, insert_one, insert_many, emplace_one, erase_one, erase_rest, assign_many,
  assign_same, clear_all, call, insert_after, emplace, overwrite, append_copies, assign_copies,
}
use linux_cpp.FwList.Edits.{
  length-hook_after, insert_range_lem, append_copies_lem, erase_after-some, erase_until_lem,
  overwrite-Overwritten, assign-range,
}

module _ {A : Type 0} where
  -- The iterator of the call is one of the list, and there is a node to erase behind it.
  abbrev pub IsPlaced : Call A → List A → Type 0
  IsPlaced (insert_one pos x) l = pos ≤ length l
  IsPlaced (insert_many pos xs) l = pos ≤ length l
  IsPlaced (emplace_one x) l = Unit {0}
  IsPlaced (erase_one pos) l = pos < length l
  IsPlaced (erase_rest pos) l = pos < length l
  IsPlaced (assign_many xs) l = Unit {0}
  IsPlaced (assign_same n x) l = Unit {0}
  IsPlaced clear_all l = Unit {0}

  -- by how much the size is too large after the call, where it was by `e` before
  abbrev pub surplus : Call A → List A → ℕ → ℕ
  surplus (insert_one pos x) l e = e
  surplus (insert_many pos xs) l e = e + length xs
  surplus (emplace_one x) l e = e
  surplus (erase_one pos) l e = e
  surplus (erase_rest pos) l e = e
  surplus (assign_many xs) l e = e + (length xs - length l)
  surplus (assign_same n x) l e = e
  surplus clear_all l e = 0

module _ {A : Type 0} where
  copies-sz :
      (n : ℕ) (x : A) (l : FwList A) (e : ℕ)
      → l.sz ≡ length l.nodes + e
      → (m : FwList A) × (assign_copies n x l ≡ some m) × (m.sz ≡ length m.nodes + e)
  unfolding assign_copies
  copies-sz n x l e h =
      let xs = replicate n x in
      let r = overwrite l.nodes xs in
      let o = overwrite-Overwritten l.nodes xs in
      let m : FwList A = record { nodes = r.0; sz = l.sz } in
      elim (o.1) [
        | inl (q, f) ↦
            let g = append_copies_lem r.1 (length r.2) x m (omega (arith, o.0, q)) in
            (
              append_copies r.1 (length r.2) x m,
              rw (eq→== _ _ q) refl,
              omega (
                arith,
                g.1,
                ap length g.0,
                o.0,
                q,
                h,
                length-append (take r.1 r.0) (replicate (length r.2) x ++ drop r.1 r.0),
                length-append (replicate (length r.2) x) (drop r.1 r.0),
                length-take r.1 r.0,
                length-drop r.1 r.0,
                length-replicate (length r.2) x,
              ),
            )
        | inr (p, q, f) ↦
            let rest =
              erase_until_lem (length l.nodes) r.1 m (omega (arith, o.0, p)) (omega (arith, o.0)) in
            (
              record { nodes = take r.1 r.0; sz = l.sz - (length r.0 - r.1) },
              rw (ne→== r.1 (length l.nodes) (λ x. absurd (omega (arith, x, p)))) rest,
              omega (arith, o.0, h, p, length-take r.1 r.0),
            )
      ]

  -- A call at an iterator of the list, which for an erase has a node behind it, returns. Only an insert of a range, also by `assign`, moves
  -- the size away from the number of nodes: it adds the number of nodes inserted once more. `clear`
  -- makes it right again.
  pub call-sz :
      (c : Call A) (l : FwList A) (e : ℕ)
      → IsPlaced c l.nodes
      → l.sz ≡ length l.nodes + e
      → (m : FwList A) × (call c l ≡ some m) × (m.sz ≡ length m.nodes + surplus c l.nodes e)
  unfolding call insert_after emplace
  call-sz (insert_one pos x) l e p h = (_, refl, omega (arith, length-hook_after pos x l.nodes, h))
  call-sz (insert_many pos xs) l e p h =
      let r = insert_range_lem pos xs l p in
      (
        _,
        refl,
        omega (
          arith,
          r.1,
          ap length r.0,
          length-append (take pos l.nodes) (xs ++ drop pos l.nodes),
          length-append xs (drop pos l.nodes),
          length-take pos l.nodes,
          length-drop pos l.nodes,
          h,
          p,
        ),
      )
  call-sz (emplace_one x) l e p h =
      (_, refl, omega (arith, length-hook_after (length l.nodes) x l.nodes, h))
  call-sz (erase_one pos) l e p h = (
    _,
    erase_after-some pos l p,
    omega (
      arith,
      length-append (take pos l.nodes) (drop (suc pos) l.nodes),
      length-take pos l.nodes,
      length-drop (suc pos) l.nodes,
      h,
      p,
    ),
  )
  call-sz (erase_rest pos) l e p h = (
    _,
    erase_until_lem (length l.nodes) pos l p (omega arith),
    omega (arith, length-take pos l.nodes, h, p),
  )
  call-sz (assign_many xs) l e p h =
      let (m, q, f, g) = assign-range xs l in (m, q, omega (arith, g e h, ap length f))
  call-sz (assign_same n x) l e p h = copies-sz n x l e h
  call-sz clear_all l e p h = (_, refl, refl)
