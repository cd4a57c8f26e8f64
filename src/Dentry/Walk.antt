-- ===== src/Dentry/Walk.antt =====
-- `stats_dentry` of dentry-travel/test.cpp visits each entry once, a directory before its entries.
use linux_cpp.Prelude.{
  ℕ, zero, suc, ◌+◌, ◌<◌, ◌≡◌, refl, sym, ap, ◌∙◌, List, [], ◌∷◌, ◌++◌, append-nil, append_assoc,
  some, arith,
}
use linux_cpp.Dentry.{Dentries, nothing, entry, Up, output, stats_loop, rounds, stats_dentry}

-- the ids in the order of a recursive walk
pub preorder : Dentries → List ℕ
preorder nothing = []
preorder (entry id sub next) = id ∷ (preorder sub ++ preorder next)

-- what the walk still has to print on its way up
still : Up → List ℕ
still [] = []
still ((id, next) ∷ up) = preorder next ++ still up

rounds_up : Up → ℕ
rounds_up [] = 0
rounds_up ((id, next) ∷ up) = suc (rounds next) + rounds_up up

loop-preorder :
    (fuel : ℕ) (pos : Dentries) (up : Up)
    → rounds pos + rounds_up up < fuel
    → stats_loop fuel pos up ≡ some (preorder pos ++ still up)
unfolding stats_loop preorder still rounds rounds_up
loop-preorder zero pos up h = absurd (omega arith)
loop-preorder (suc fuel) nothing [] h = refl
loop-preorder (suc fuel) nothing ((id, next) ∷ up) h = loop-preorder fuel next up (omega arith)
loop-preorder (suc fuel) (entry id nothing next) up h =
    ap (output id) (loop-preorder fuel next up (omega arith))
loop-preorder (suc fuel) (entry id (entry id' sub next') next) up h = ap (output id) (
    loop-preorder fuel (entry id' sub next') ((id, next) ∷ up) (omega arith)
    ∙ ap some (sym (append_assoc (preorder (entry id' sub next')) (preorder next) (still up))))

-- `stats_dentry` ends after at most two rounds for each entry and one more, and has then printed all
-- entries in the order of a recursive walk.
pub stats_dentry-preorder : (root : Dentries) → stats_dentry root ≡ some (preorder root)
unfolding stats_dentry still rounds_up
stats_dentry-preorder root =
    loop-preorder (suc (rounds root)) root [] (omega arith) ∙ ap some (append-nil (preorder root))
