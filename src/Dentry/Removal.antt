-- ===== src/Dentry/Removal.antt =====
-- `remove_dentry` of dentry-travel/test.cpp frees each entry once, a directory after its entries.
use linux_cpp.Prelude.{
  ℕ, zero, suc, ◌+◌, ◌≤◌, ◌<◌, ◌≡◌, refl, sym, ap, ◌∙◌, List, [], ◌∷◌, ◌++◌, append-nil,
  append_assoc, arith,
}
use linux_cpp.Dentry.{
  Dentries, nothing, entry, Up, free_leaves, Freed, freed, freed_root, after, go_on, remove_loop,
  rounds, remove_dentry,
}

-- the ids in the order of a recursive removal
pub postorder : Dentries → List ℕ
postorder nothing = []
postorder (entry id sub next) = postorder sub ++ (id ∷ postorder next)

still : Up → List ℕ
still [] = []
still ((id, next) ∷ up) = id ∷ (postorder next ++ still up)

rounds_up : Up → ℕ
rounds_up [] = 0
rounds_up ((id, next) ∷ up) = suc (rounds next) + rounds_up up

free_leaves-postorder :
    (next : Dentries) → (free_leaves next).0 ++ postorder (free_leaves next).1 ≡ postorder next
unfolding free_leaves postorder
free_leaves-postorder nothing = refl
free_leaves-postorder (entry id nothing next) = ap (λ ids. id ∷ ids) (free_leaves-postorder next)
free_leaves-postorder (entry id (entry id' sub next') next) = refl

free_leaves-rounds : (next : Dentries) → rounds (free_leaves next).1 ≤ rounds next
unfolding free_leaves rounds
free_leaves-rounds nothing = omega arith
free_leaves-rounds (entry id nothing next) = omega (arith, free_leaves-rounds next)
free_leaves-rounds (entry id (entry id' sub next') next) = omega arith

-- the loop is not at the root without entries
abbrev Goes : Dentries → Up → Type 0
Goes nothing [] = ⊥
Goes nothing (u ∷ up) = Unit
Goes (entry id sub next) up = Unit

go_on-freed :
    (left : Dentries) (up : Up) (again : Freed)
    → (Goes left up → again ≡ freed (postorder left ++ still up))
    → go_on left up again ≡ freed (postorder left ++ still up)
unfolding postorder still
go_on-freed nothing [] again h = refl
go_on-freed nothing (u ∷ up) again h = h tt
go_on-freed (entry id sub next) up again h = h tt

loop-postorder :
    (fuel : ℕ) (subdirs : Dentries) (up : Up)
    → rounds subdirs + rounds_up up < fuel
    → Goes subdirs up
    → remove_loop fuel subdirs up ≡ freed (postorder subdirs ++ still up)
unfolding remove_loop postorder still rounds rounds_up
loop-postorder zero subdirs up h g = absurd (omega arith)
loop-postorder (suc fuel) (entry id sub next) up h g =
    loop-postorder fuel sub ((id, next) ∷ up) (omega arith) (below sub id next up)
    ∙ ap freed (sym (append_assoc (postorder sub) (id ∷ postorder next) (still up)))
  where
    below : (s : Dentries) (i : ℕ) (n : Dentries) (u : Up) → Goes s ((i, n) ∷ u)
    below nothing i n u = tt
    below (entry j t m) i n u = tt
loop-postorder (suc fuel) nothing [] h g = absurd g
loop-postorder (suc fuel) nothing ((id, next) ∷ up) h g =
    let (ids, left) = free_leaves next in
    ap (after (id ∷ ids)) (
      go_on-freed left up (remove_loop fuel left up)
        (λ k. loop-postorder fuel left up (omega (arith, free_leaves-rounds next)) k))
    ∙ ap (λ xs. freed (id ∷ xs))
        (sym (append_assoc ids (postorder left) (still up))
          ∙ ap (λ xs. xs ++ still up) (free_leaves-postorder next))

-- what `remove_dentry` owes
abbrev pub Frees : Dentries → Freed → Type 0
Frees nothing r = r ≡ freed_root
Frees (entry id sub next) r = r ≡ freed (postorder (entry id sub next))

-- `remove_dentry` of a root with entries ends after at most two rounds for each entry and one more, and
-- has then freed all entries and nothing else, each once and after its own entries; but for a root with no
-- entries it frees the root itself.
pub remove_dentry-Frees : (root : Dentries) → Frees root (remove_dentry root)
unfolding remove_dentry remove_loop still rounds rounds_up
remove_dentry-Frees nothing = refl
remove_dentry-Frees (entry id sub next) =
    loop-postorder (suc (rounds (entry id sub next))) (entry id sub next) [] (omega arith) tt
    ∙ ap freed (append-nil (postorder (entry id sub next)))
