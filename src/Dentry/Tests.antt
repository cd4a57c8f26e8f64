-- ===== src/Dentry/Tests.antt =====
-- Runs of dentry-travel/test.cpp, and the theorems at a concrete tree.
use linux_cpp.Prelude.{◌≡◌, refl, [], ◌∷◌, some}
use linux_cpp.Dentry.{
  Dentries, nothing, entry, stats_loop, free_leaves, freed, remove_loop, rounds, stats_dentry,
  remove_dentry,
}
use linux_cpp.Dentry.Walk.{preorder, stats_dentry-preorder}
use linux_cpp.Dentry.Removal.{Frees, remove_dentry-Frees}

-- directory 1 with the files 10 and 11, and the files 2 and 3
abbrev tree : Dentries
tree =
    entry 1 (entry 10 nothing (entry 11 nothing nothing))
      (entry 2 nothing (entry 3 nothing nothing))

printed : stats_dentry tree ≡ some (1 ∷ 10 ∷ 11 ∷ 2 ∷ 3 ∷ [])
unfolding stats_dentry stats_loop rounds
printed = refl

removed : remove_dentry tree ≡ freed (10 ∷ 11 ∷ 1 ∷ 2 ∷ 3 ∷ [])
unfolding remove_dentry remove_loop free_leaves rounds
removed = refl

stats_dentry-preorder_example : stats_dentry tree ≡ some (preorder tree)
stats_dentry-preorder_example = stats_dentry-preorder tree

remove_dentry-Frees_example : Frees tree (remove_dentry tree)
remove_dentry-Frees_example = remove_dentry-Frees tree
