-- ===== src/Runner/Locked.antt =====
-- What librun/run.c does with a process that is locked.
use web_tester.Prelude.{ℕ, ◌≡◌, refl, ap, ◌∙◌, true, false, Option, none, List, [], ◌∷◌}
use web_tester.Time.{Timeval}
use web_tester.Runner.Process.{Stats, ProcessInfo, RunSettings}
use web_tester.Runner.Actions.{
  overview_process, process_terminated, process_stopped, process_continued, finalize_executing,
}

-- What happens to a process: an overview with the time and the statistics, and what the LRVM reports.
pub data Event : Type 0 where
  overviewed : Timeval → Option Stats → Event
  terminates : ℕ → Event
  stops : ℕ → Event
  continues : Event

abbrev pub on_event : RunSettings → Event → ProcessInfo → ProcessInfo
on_event c (overviewed now stats) p = overview_process c now stats p
on_event c (terminates sig) p = process_terminated sig p
on_event c (stops sig) p = process_stopped sig p
on_event c continues p = process_continued p

abbrev pub on_events : RunSettings → List Event → ProcessInfo → ProcessInfo
on_events c [] p = p
on_events c (e ∷ es) p = on_events c es (on_event c e p)

on_event-locked :
    (c : RunSettings) (e : Event) (p : ProcessInfo) → p.locked ≡ true → on_event c e p ≡ p
unfolding overview_process
on_event-locked c (overviewed now stats) p locked = simp locked refl
on_event-locked c (terminates sig) p locked = simp locked refl
on_event-locked c (stops sig) p locked = simp locked refl
on_event-locked c continues p locked = simp locked refl

on_events-locked :
    (c : RunSettings) (es : List Event) (p : ProcessInfo) → p.locked ≡ true → on_events c es p ≡ p
on_events-locked c [] p locked = refl
on_events-locked c (e ∷ es) p locked =
    ap (λ q. on_events c es q) (on_event-locked c e p locked) ∙ on_events-locked c es p locked

finalize_executing-locked :
    (c : RunSettings) (p : ProcessInfo)
    → p.killing ≡ false
    → (finalize_executing c none p).1.locked ≡ true
unfolding finalize_executing
finalize_executing-locked c p e = simp e refl

finalize_executing-error :
    (c : RunSettings) (p : ProcessInfo)
    → p.killing ≡ false
    → (finalize_executing c none p).1.state.exec_error ≡ true
unfolding finalize_executing
finalize_executing-error c p e = simp e refl

-- A process for which `run_finalize_executing` finds no accounting information has an error of executing
-- and stays locked: whatever overviews and reports of its LRVM follow, they leave it as it is, with the
-- pids that it had.
pub finalize_executing-stuck :
    (c : RunSettings) (p : ProcessInfo) (es : List Event)
    → p.killing ≡ false
    → let q = (finalize_executing c none p).1 in
      (q.state.exec_error ≡ true) × (on_events c es q ≡ q)
finalize_executing-stuck c p es e = (
  finalize_executing-error c p e,
  on_events-locked c es (finalize_executing c none p).1 (finalize_executing-locked c p e),
)
