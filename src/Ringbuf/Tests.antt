-- ===== src/Ringbuf/Tests.antt =====
-- Runs of ringbuf/ringbuf.h on a block of four bytes.
use linux_cpp.Prelude.{◌≡◌, refl, List, [], ◌∷◌, arith}
use linux_cpp.Ringbuf.{Ringbuf, init, write, write_bytes, read, read_locked}
use linux_cpp.Ringbuf.Queue
use linux_cpp.Ringbuf.Queue.{Op, put, get}
use linux_cpp.Ringbuf.Inv.{IsValid}
use linux_cpp.Ringbuf.Refine.{contents, run, run_refines}

-- 8, 9 and then 1, round the end of the block
abbrev wrapped : Ringbuf
wrapped = record { buf = 1 ∷ 7 ∷ 8 ∷ 9 ∷ []; sz = 3; cap = 4; read_pos = 2; write_pos = 1 }

wrapped-IsValid : IsValid wrapped
wrapped-IsValid = omega arith

contents-wrapped : contents wrapped ≡ 8 ∷ 9 ∷ 1 ∷ []
contents-wrapped = refl

write_whole_or_not : (write wrapped (5 ∷ 6 ∷ []) 2).0 ≡ 0
unfolding write
write_whole_or_not = refl

init_then_write : contents (write (init 4) (5 ∷ 6 ∷ []) 2).1 ≡ 5 ∷ 6 ∷ []
unfolding write write_bytes init
init_then_write = refl

abbrev script : List Op
script = put (4 ∷ []) ∷ put (5 ∷ []) ∷ get 3 ∷ get 3 ∷ get 1 ∷ []

run-wrapped :
    run wrapped script ≡ (1, []) ∷ (0, []) ∷ (3, 8 ∷ 9 ∷ 1 ∷ []) ∷ (0, []) ∷ (1, 4 ∷ []) ∷ []
unfolding run write write_bytes read read_locked
run-wrapped = refl

run_refines_example : run wrapped script ≡ Queue.run 4 (8 ∷ 9 ∷ 1 ∷ []) script
run_refines_example = run_refines script wrapped-IsValid
