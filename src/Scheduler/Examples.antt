-- ===== src/Scheduler/Examples.antt =====
-- Two entries at 10 seconds, one of which is due, and the times between.
use web_tester.Prelude.{ℕ, ◌≡◌, true, List, [], ◌∷◌, ◌++◌, arith}
use web_tester.Time.{Timeval, check_time_delta, check_time_delta-micros}
use web_tester.Scheduler.{Entry, overview}
use web_tester.Scheduler.Overview.{due, renewed, run, overview-due}

abbrev early : Timeval
early = record { sec = 8; usec = 900000 }

abbrev now : Timeval
now = record { sec = 10; usec = 100000 }

abbrev entries : List Entry
entries =
    record { callback = 1; context = 5; interval = 1000000; last_call = early }
    ∷ record { callback = 2; context = 6; interval = 2000000; last_call = early }
    ∷ []

-- A call appends the callback to the state.
abbrev call : ℕ → ℕ → List ℕ → List ℕ
call callback context s = s ++ callback ∷ []

check_time_delta-micros_example : check_time_delta early now 1000000 ≡ true
check_time_delta-micros_example =
    check_time_delta-micros early now 1000000 (omega arith) (omega arith)

overview-due_example :
    overview call entries now [] ≡ (renewed now entries, run call (due now entries) [])
overview-due_example =
    overview-due call entries now [] (omega arith, (omega arith, tt)) (omega arith)
