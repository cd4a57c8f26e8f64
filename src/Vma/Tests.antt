-- ===== src/Vma/Tests.antt =====
-- Runs of the three area allocators on small address spaces.
use linux_cpp.Prelude.{ℕ, ◌≡◌, refl, true, false, none, some, List, [], ◌∷◌, arith}
use linux_cpp.Vma.{Area, Space, returned, area, place, alloc_vma}
use linux_cpp.Vma.Alloc.{IsReady, Serves, alloc_vma-Serves, Reach, fresh, call, Reach-IsReady}
use linux_cpp.Vma.Early
use linux_cpp.Vma.Early.{alloc_vma-blocked, alloc_vma_beyond}
use linux_cpp.Vma.User
use linux_cpp.Vma.User.{nil, fork}
use linux_cpp.Vma.User.Refine.{IsValid, Refines, alloc_vma-Refines}

-- [0, 16) and [32, 40)
abbrev two : List Area
two = area 0 16 ∷ area 32 8 ∷ []

abbrev space : Space
space = record { areas = two; locked = false }

place_between : place 0 8 two ≡ some (area 16 8, area 0 16 ∷ area 16 8 ∷ area 32 8 ∷ [])
unfolding place
place_between = refl

place_behind_all : place 0 24 two ≡ some (area 40 24, area 0 16 ∷ area 32 8 ∷ area 40 24 ∷ [])
unfolding place
place_behind_all = refl

space-IsReady : IsReady space
space-IsReady = record { free = refl; laid_out = omega arith }

alloc_vma-Serves_example : Serves 3 space (alloc_vma 3 space)
alloc_vma-Serves_example = alloc_vma-Serves 3 space (omega arith) space-IsReady

abbrev one : Space
one = record { areas = area 0 16 ∷ []; locked = false }

one-Reach : Reach one
unfolding alloc_vma place
one-Reach = call 9 fresh (omega arith) refl

Reach-IsReady_example : IsReady one
Reach-IsReady_example = Reach-IsReady one-Reach

-- the whole space
abbrev full : Space
full = record { areas = area 0 0x400 ∷ area 0x400 8 ∷ []; locked = false }

abbrev full_locked : Space
full_locked = record full { locked = true }

full_fails : Early.alloc_vma 8 full ≡ returned none full_locked
unfolding Early.alloc_vma Early.place
full_fails = refl

abbrev node : ℕ → ℕ → ℕ → User.Node
node p a b = record { ptr = p; start = a; end = b }

-- the same two areas in a tree
abbrev threaded : User.Space
threaded = record {
  chain = node 100 0 16 ∷ node 300 32 40 ∷ [];
  root = fork nil (node 100 0 16) (fork nil (node 300 32 40) nil);
  locked = false;
}

threaded-IsValid : IsValid threaded
threaded-IsValid = record {
  free = refl;
  thread = refl;
  distinct = omega arith;
  laid_out = omega arith;
  rooted = (refl, refl);
}

alloc_vma_threads :
    User.alloc_vma 200 5 threaded
    ≡ User.returned (some (node 200 16 24)) (record {
      chain = node 100 0 16 ∷ node 200 16 24 ∷ node 300 32 40 ∷ [];
      root = fork nil (node 100 0 16) (fork (fork nil (node 200 16 24) nil) (node 300 32 40) nil);
      locked = false;
    })
unfolding User.alloc_vma User.serve User.get_unmaped_area User.find_start User.scan User.insert_vm
    User.insert_node User.link User.insert_list User.insert_after User.chain_from
alloc_vma_threads = refl

alloc_vma-Refines_example : Refines 200 threaded (place 0 8 two) (User.alloc_vma 200 5 threaded)
alloc_vma-Refines_example =
    alloc_vma-Refines 200 5 threaded threaded-IsValid (omega arith) (omega arith) (omega arith)
