-- ===== src/Dentry.antt =====
-- dentry-travel/test.cpp: the walk through a tree of directories and its removal, both without a stack
-- or recursion. `pos` is the list of the entries from it to the head of its directory. The way up from
-- `parent` is, for each ancestor below the root, its id with the entries behind it.
pub mod Walk
pub mod Removal
mod Tests
use linux_cpp.Prelude.{ℕ, zero, suc, ◌+◌, List, [], ◌∷◌, ◌++◌, Option, none, some}

-- a directory's entries: the first one's id and entries, and those behind it
pub data Dentries : Type 0 where
  nothing : Dentries
  entry : ℕ → Dentries → Dentries → Dentries

abbrev pub Up : Type 0
Up = List (ℕ × Dentries)

abbrev pub output : ℕ → Option (List ℕ) → Option (List ℕ)
output id none = none
output id (some ids) = some (id ∷ ids)

-- The loop of `stats_dentry` from `pos` on, with the ids that it prints; `none` when the fuel runs out.
pub stats_loop : ℕ → Dentries → Up → Option (List ℕ)
stats_loop zero pos up = none
stats_loop (suc fuel) nothing [] = some []
stats_loop (suc fuel) nothing ((id, next) ∷ up) = stats_loop fuel next up
stats_loop (suc fuel) (entry id nothing next) up = output id (stats_loop fuel next up)
stats_loop (suc fuel) (entry id (entry id' sub next') next) up =
    output id (stats_loop fuel (entry id' sub next') ((id, next) ∷ up))

-- `do … while` of `remove_dentry` from the second round on: the ids of the entries in front that have no
-- entries, and what is left
pub free_leaves : Dentries → List ℕ × Dentries
free_leaves nothing = ([], nothing)
free_leaves (entry id nothing next) = (id ∷ (free_leaves next).0, (free_leaves next).1)
free_leaves (entry id (entry id' sub next') next) = ([], entry id (entry id' sub next') next)

-- how `remove_dentry` ends
pub data Freed : Type 0 where
  freed : List ℕ → Freed
  freed_root : Freed
  no_fuel : Freed

abbrev pub after : List ℕ → Freed → Freed
after ids (freed ids') = freed (ids ++ ids')
after ids freed_root = freed_root
after ids no_fuel = no_fuel

-- the test at the end: the root is left with no entries, or the loop repeats
abbrev pub go_on : Dentries → Up → Freed → Freed
go_on nothing [] again = freed []
go_on nothing (u ∷ up) again = again
go_on (entry id sub next) up again = again

-- The loop of `remove_dentry` in the directory `parent`: it goes down to the first entry, or frees
-- `parent` and the entries behind it that have none.
pub remove_loop : ℕ → Dentries → Up → Freed
remove_loop zero subdirs up = no_fuel
remove_loop (suc fuel) (entry id sub next) up = remove_loop fuel sub ((id, next) ∷ up)
remove_loop (suc fuel) nothing [] = freed_root
remove_loop (suc fuel) nothing ((id, next) ∷ up) =
    after (id ∷ (free_leaves next).0)
      (go_on (free_leaves next).1 up (remove_loop fuel (free_leaves next).1 up))

-- the rounds that a directory takes at most
pub rounds : Dentries → ℕ
rounds nothing = 0
rounds (entry id sub next) = 2 + (rounds sub + rounds next)

pub stats_dentry : Dentries → Option (List ℕ)
stats_dentry root = stats_loop (suc (rounds root)) root []

pub remove_dentry : Dentries → Freed
remove_dentry root = remove_loop (suc (rounds root)) root []
