-- ===== src/Runner/Examples.antt =====
-- A process over its limit of memory, and one without accounting information.
use web_tester.Prelude.{ℕ, ◌≡◌, refl, true, false, none, some, [], ◌∷◌, pos}
use web_tester.Time.{Timeval}
use web_tester.Runner.Process.{no_state, Stats, ProcessInfo, RunSettings}
use web_tester.Runner.Actions.{overview_process, finalize_executing}
use web_tester.Runner.Overview.{must_kill, Outcome, overview_process-Outcome}
use web_tester.Runner.Locked.{overviewed, terminates, on_events, finalize_executing-stuck}

abbrev settings : RunSettings
settings = record {
  lrvm_ans_timeout = 5000000;
  zombie_timeout = 3000000;
  rss_correction = pos 0;
  time_correction = pos 0;
  peak_time = 0;
  peak_rss = 0;
}

abbrev at_second : ℕ → Timeval
at_second n = record { sec = n; usec = 0 }

abbrev stats : Stats
stats = record { hiwater_rss = 65; hiwater_vm = 70; ac_etime = 3; ac_stime = 1; ac_utime = 2 }

abbrev process : ProcessInfo
process = record {
  limit_rss = 64;
  limit_time = 0;
  state = record no_state { running = true };
  locked = false;
  lrvm_pid = 7;
  task_pid = 8;
  zombied = false;
  killing = false;
  timestamp = at_second 1;
  zombie_timestamp = at_second 0;
  base_time = 0;
  usage_rss = 0;
  usage_time = 0;
  term_sig = 0;
  stop_sig = 0;
  err_desc = [];
  signalled = [];
}

overview_process-Outcome_example :
    Outcome
      (must_kill settings (at_second 2) (some stats) process)
      process
      (overview_process settings (at_second 2) (some stats) process)
overview_process-Outcome_example =
    overview_process-Outcome settings (at_second 2) (some stats) process refl

finalize_executing-stuck_example :
    ((finalize_executing settings none process).1.state.exec_error ≡ true)
    × (on_events settings
          (overviewed (at_second 9) none ∷ terminates 9 ∷ [])
          (finalize_executing settings none process).1
        ≡ (finalize_executing settings none process).1)
finalize_executing-stuck_example =
    finalize_executing-stuck settings process (overviewed (at_second 9) none ∷ terminates 9 ∷ [])
      refl
