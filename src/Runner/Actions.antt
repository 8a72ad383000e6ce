-- ===== src/Runner/Actions.antt =====
-- What librun/run.c does with a process: killing, the checks of the overview, the reports of its LRVM
-- and the end of its execution.
use web_tester.Prelude.{
  ℕ, suc, Bool, true, false, ◌&&◌, ◌||◌, Option, none, some, List, [], ◌∷◌, ◌++◌, ℤ, pos, negsuc,
  Text, codes, ltb, ◌==◌, if◌then◌else◌,
}
use web_tester.Time.{Timeval, timedist, tv_usec_cmp}
use web_tester.Runner.Process.{
  ProcState, no_state, Stats, is_zombie, ProcessInfo, RunSettings, fill_from_stats, over_memory,
  over_time, check_limits,
}

-- The pid, where it is set.
abbrev pub set_pid : ℕ → List ℕ
set_pid pid = if ltb 0 pid then pid ∷ [] else []

-- `run_kill_process`, with `kill_child_process`
unfoldable pub kill_process : ProcessInfo → ProcState → ProcessInfo
kill_process p state = if p.killing then p else record p {
  state = record state { killed = true; exec_error = state.exec_error || p.state.exec_error };
  locked = false;
  killing = false;
  lrvm_pid = 0;
  task_pid = 0;
  signalled = p.signalled ++ (set_pid p.task_pid ++ set_pid p.lrvm_pid);
}

-- `RUN_PROC_LOCK`, `run_kill_process`, `RUN_PROC_UNLOCK`
unfoldable pub kill_locked : ProcessInfo → ProcState → ProcessInfo
unfolding kill_process
kill_locked p state = record (kill_process (record p { locked = true }) state) { locked = false }

-- `SET_PROCESS_EXECERROR`
abbrev pub set_exec_error : Text → ProcessInfo → ProcessInfo
set_exec_error desc p = record p { state = record no_state { exec_error = true }; err_desc = desc }

abbrev pub is_positive_cmp : ℤ → Bool
is_positive_cmp (pos (suc n)) = true
is_positive_cmp _ = false

abbrev pub is_not_negative : ℤ → Bool
is_not_negative (pos n) = true
is_not_negative (negsuc n) = false

-- No answer from the LRVM for too long.
abbrev pub is_late : RunSettings → Timeval → ProcessInfo → Bool
is_late c now p =
    (p.lrvm_pid == 0 || p.task_pid == 0)
    && is_positive_cmp (tv_usec_cmp p.timestamp 0)
    && is_not_negative (tv_usec_cmp (timedist p.timestamp now) c.lrvm_ans_timeout)

-- `belts_check_lrvm_ans_timeout`
unfoldable pub check_lrvm_ans_timeout : RunSettings → Timeval → ProcessInfo → ProcessInfo
check_lrvm_ans_timeout c now p =
    if is_late c now p
    then kill_locked (set_exec_error (codes "Timelimit to answer from LRVM exceeded.") p) no_state
    else p

abbrev pub zombie_since : Timeval → ProcessInfo → ProcessInfo
zombie_since now p = if p.zombied then p else record p { zombie_timestamp = now; zombied = true }

abbrev pub zombie_too_long : RunSettings → Timeval → ProcessInfo → Bool
zombie_too_long c now p =
    is_not_negative (tv_usec_cmp (timedist p.zombie_timestamp now) c.zombie_timeout)

-- `belts_check_proc_zombie`
unfoldable pub check_proc_zombie : RunSettings → Timeval → ProcessInfo → ProcessInfo
check_proc_zombie c now p =
    let q = zombie_since now p in
    if zombie_too_long c now q
    then kill_locked (set_exec_error (codes "Suspesion in zombie") q) no_state
    else q

-- `belts_check_limits`
unfoldable pub belts_check_limits : RunSettings → Stats → ProcessInfo → ProcessInfo
belts_check_limits c s p =
    let q = fill_from_stats c s p in
    if over_memory c q || over_time c q then kill_locked q (check_limits c q no_state) else q

-- `RUN_PROC_STATE_EXECUTING`
abbrev pub is_executing : ProcState → Bool
is_executing s = s.running || s.stopped || s.continued

abbrev pub check_stats : RunSettings → Timeval → Option Stats → ProcessInfo → ProcessInfo
check_stats c now none p = check_proc_zombie c now p
check_stats c now (some s) p =
    if is_zombie s
    then check_proc_zombie c now p
    else belts_check_limits c s (record p { zombied = false })

abbrev pub has_pids : ProcessInfo → Bool
has_pids p = ltb 0 p.lrvm_pid && ltb 0 p.task_pid

-- An executing process whose LRVM has answered.
unfoldable pub overview_answered : RunSettings → Timeval → Option Stats → ProcessInfo → ProcessInfo
overview_answered c now stats p =
    if has_pids p && is_executing p.state then check_stats c now stats p else p

-- What `run_belts_overview` does with a process, given its statistics.
unfoldable pub overview_process : RunSettings → Timeval → Option Stats → ProcessInfo → ProcessInfo
overview_process c now stats p =
    if p.locked then p else overview_answered c now stats (check_lrvm_ans_timeout c now p)

-- `run_process_terminated`, `run_process_stopped` and `run_process_continued`
abbrev pub process_terminated : ℕ → ProcessInfo → ProcessInfo
process_terminated sig p =
    if p.locked
    then p
    else record p { state = record no_state { terminated = true }; term_sig = sig }

abbrev pub process_stopped : ℕ → ProcessInfo → ProcessInfo
process_stopped sig p =
    if p.locked then p else record p { state = record no_state { stopped = true }; stop_sig = sig }

abbrev pub process_continued : ProcessInfo → ProcessInfo
process_continued p =
    if p.locked then p else record p { state = record no_state { continued = true } }

-- `RUN_PROC_GETSIGNAL`
abbrev pub signal_bits : ProcState → ProcState
signal_bits s = record no_state {
  terminated = s.terminated;
  killed = s.killed;
  stopped = s.stopped;
  continued = s.continued;
}

abbrev finalized : RunSettings → Option Stats → ProcessInfo → Bool × ProcessInfo
finalized c none p = (false, set_exec_error (codes "No accounting info found") p)
finalized c (some s) p =
    let q = fill_from_stats c s p in
    (
      true,
      record q {
        state = record (check_limits c q (signal_bits p.state)) { finished = true };
        locked = false;
      },
    )

-- `run_finalize_executing`, `false` for -1
unfoldable pub finalize_executing : RunSettings → Option Stats → ProcessInfo → Bool × ProcessInfo
finalize_executing c stats p =
    let done = finalized c stats (record p { locked = true }) in
    if p.killing then (false, p) else done
