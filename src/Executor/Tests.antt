-- ===== src/Executor/Tests.antt =====
-- Two callers: the second waits for the lock, Close is called, and it is refused; a read is answered.
use oddk.Base.{ℕ, ◌≡◌, ◌⊎◌, refl, true, false, none, some, List, [], ◌∷◌}
use oddk.Executor.{
  Executor, new_executor, Event, Point, moved, op_type_read, op_type_write, step, run, drained,
}
use oddk.Executor.Exclusion.{is_executing, run-exclusive, run-drained}

abbrev first_caller : ℕ
first_caller = 1

abbrev second_caller : ℕ
second_caller = 2

abbrev two_callers : List Event
two_callers = Event.call 1 ∷ Event.call 2 ∷ Event.acquire 1 ∷ Event.recheck 1 ∷ []

abbrev stop : List Event
stop =
    Event.call 1
    ∷ Event.call 2
    ∷ Event.acquire 1
    ∷ Event.recheck 1
    ∷ Event.close
    ∷ Event.finish 1
    ∷ []

abbrev straggler : List Event
straggler =
    Event.acquire 2
    ∷ Event.call_read 3 op_type_read
    ∷ Event.call_read 4 op_type_write
    ∷ Event.recheck 2
    ∷ []

abbrev one_runs : Executor
one_runs = record {
  closing = false;
  lock = some 1;
  point =
      moved 1 Point.running
        (moved 1 Point.locked (moved 2 Point.waiting (moved 1 Point.waiting new_executor.point)));
}

two_callers-run : run two_callers new_executor ≡ some one_runs
unfolding run step
two_callers-run = refl

run-exclusive_example :
    (is_executing (one_runs.point 2) ≡ true
      → (first_caller ≡ second_caller) ⊎ (one_runs.point 2 ≡ Point.reading op_type_read))
    × (drained one_runs ≡ false)
run-exclusive_example = run-exclusive two_callers one_runs 1 2 two_callers-run refl

abbrev stopped : Executor
stopped = record { closing = true; lock = none; point = moved 1 Point.returned one_runs.point }

stop-run : run stop new_executor ≡ some stopped
unfolding run step
stop-run = refl

stopped-drained : drained stopped ≡ true
unfolding drained
stopped-drained = refl

abbrev after_straggler : Executor
after_straggler = record {
  closing = true;
  lock = none;
  point = moved 2 Point.refused (
      moved 4 Point.refused
        (moved 3 (Point.reading op_type_read) (moved 2 Point.locked stopped.point)));
}

straggler-run : run straggler stopped ≡ some after_straggler
unfolding run step
straggler-run = refl

-- The read that came after the stop is answered.
run-drained_example : after_straggler.point 3 ≡ Point.reading op_type_read
run-drained_example =
    run-drained stop straggler stopped after_straggler 3 stop-run refl stopped-drained straggler-run
      refl
