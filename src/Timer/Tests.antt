-- ===== src/Timer/Tests.antt =====
-- Runs of timer-wheel/test.cpp, and its theorems at concrete timers.
use linux_cpp.Prelude.{ℕ, ◌≡◌, refl, inl, inr, List, [], ◌∷◌, In, arith}
use linux_cpp.Timer.{
  Timer, Call, init_tv_base, list_add, slot_to_add, slot_to_move, add_timer, add_all, cascade_loop,
  cascade1, cascade2, cascades, round, run,
}
use linux_cpp.Timer.Fire.{run-due}

abbrev timer : ℕ → Timer
timer e = record { expires = e; payload = e }

abbrev timers : List Timer
timers = timer 3 ∷ timer 70 ∷ timer 9 ∷ timer 300 ∷ []

abbrev call : ℕ → ℕ → Call
call j e = record { time = j; timer = timer e }

-- The timer that expires before the first round is called 8 late.
run_test :
    (run 400 5 (add_all timers init_tv_base)).0
    ≡ call 9 9 ∷ call 11 3 ∷ call 70 70 ∷ call 300 300 ∷ []
unfolding run round cascades cascade1 cascade2 cascade_loop slot_to_move add_all add_timer list_add
    slot_to_add init_tv_base
run_test = refl

run-due_example :
    In (record { time = 300; timer = timer 300 }) (run 400 5 (add_all timers init_tv_base)).0
run-due_example =
    run-due timers (timer 300) 5 400 (inr (inr (inr (inl refl)))) (omega arith) (omega arith)
      (omega arith) (omega arith)
