-- ===== src/AsyncRing/Tests.antt =====
-- Runs of async-ring-buffer with 129 payloads, of which each buffer takes 64.
use linux_cpp.Prelude.{ℕ, ◌≡◌, ◌≢◌, refl, false, List, [], ◌∷◌, ◌++◌, replicate, tabulate}
use linux_cpp.AsyncRing.{
  overflow, request, put_header, emplace_back, payloads, overflow_file, write, write_all, after_try,
  producer_step, flusher_step, start, Turn, produce, flush, step, run, pausing, sleeping, failed,
  clearing,
}
use linux_cpp.AsyncRing.Inv.{content, hand}
use linux_cpp.AsyncRing.Run.{buffered, run-keeps}
use linux_cpp.AsyncRing.Sleep.{run-sleeping}

abbrev input : List ℕ
input = tabulate (λ n. n) 129

-- Both buffers are full, the first is written, and the producer has seen that the status is busy.
abbrev turns : List Turn
turns = replicate 131 produce ++ (flush ∷ flush ∷ flush ∷ produce ∷ [])

before_wait : (run turns (start input)).producer ≡ pausing 128
unfolding run step start producer_step flusher_step overflow emplace_back request put_header
    after_try payloads write_all write overflow_file
before_wait = refl

behind_flush : (run turns (start input)).flusher ≡ clearing 0
unfolding run step start producer_step flusher_step overflow emplace_back request put_header
    after_try payloads write_all write overflow_file
behind_flush = refl

list_empty : (run turns (start input)).listed ≡ 0
unfolding run step start producer_step flusher_step overflow emplace_back request put_header
    after_try payloads write_all write overflow_file
list_empty = refl

run-keeps_example :
    (content (run turns (start input)).file
        ++ (buffered (run turns (start input))
            ++ (hand (run turns (start input)).producer ++ (run turns (start input)).todo))
      ≡ input)
    × ((run turns (start input)).producer ≢ failed)
run-keeps_example = run-keeps input turns

run-sleeping_example :
    let t =
      run (flush ∷ flush ∷ produce ∷ []) (run (flush ∷ produce ∷ []) (run turns (start input))) in
    (t.producer ≡ sleeping 128) × (t.sche ≡ false) × (t.sync ≡ false)
run-sleeping_example =
    run-sleeping input turns 128 before_wait behind_flush list_empty (flush ∷ flush ∷ produce ∷ [])
      tt
