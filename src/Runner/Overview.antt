-- ===== src/Runner/Overview.antt =====
-- Which processes `run_belts_overview` of librun/run.c kills.
use web_tester.Prelude.{
  ◌≡◌, refl, ap, sym, subst, ◌∙◌, Bool, true, false, ◌&&◌, ◌||◌, not, Option, none, some, ◌++◌,
  codes, if◌then◌else◌, arith, Bool-cases, inl, inr,
}
use web_tester.Time.{Timeval}
use web_tester.Runner.Process.{
  ProcState, no_state, Stats, is_zombie, ProcessInfo, RunSettings, fill_from_stats, over_memory,
  over_time, check_limits,
}
use web_tester.Runner.Actions.{
  set_pid, kill_process, kill_locked, set_exec_error, is_late, check_lrvm_ans_timeout, zombie_since,
  zombie_too_long, check_proc_zombie, belts_check_limits, is_executing, check_stats, has_pids,
  overview_answered, overview_process,
}

-- What the statistics say against a process.
abbrev pub is_bad : RunSettings → Timeval → Option Stats → ProcessInfo → Bool
is_bad c now none p = zombie_too_long c now (zombie_since now p)
is_bad c now (some s) p =
    if is_zombie s
    then zombie_too_long c now (zombie_since now p)
    else over_memory c (fill_from_stats c s p) || over_time c (fill_from_stats c s p)

-- The process is not locked, and the LRVM has not answered for too long, or it has, the process
-- executes, and there is something against it.
abbrev pub must_kill : RunSettings → Timeval → Option Stats → ProcessInfo → Bool
must_kill c now stats p =
    not p.locked
    && (is_late c now p || (has_pids p && is_executing p.state && is_bad c now stats p))

-- Killed, with the processes of the old pids asked to end; or left in its state.
abbrev pub Outcome : Bool → ProcessInfo → ProcessInfo → Type 0
Outcome true p q =
    (q.state.killed ≡ true)
    × (q.task_pid ≡ 0)
    × (q.lrvm_pid ≡ 0)
    × (q.locked ≡ false)
    × (q.signalled ≡ p.signalled ++ (set_pid p.task_pid ++ set_pid p.lrvm_pid))
    × (q.killing ≡ false)
Outcome false p q =
    (q.state ≡ p.state)
    × (q.task_pid ≡ p.task_pid)
    × (q.lrvm_pid ≡ p.lrvm_pid)
    × (q.locked ≡ p.locked)
    × (q.signalled ≡ p.signalled)
    × (q.killing ≡ false)

kill_locked-Outcome :
    (p : ProcessInfo) (state : ProcState) → p.killing ≡ false → Outcome true p (kill_locked p state)
unfolding kill_locked kill_process
kill_locked-Outcome p state e = simp e (refl, refl, refl, refl, refl, refl)

zombie_since-Outcome :
    (now : Timeval) (p : ProcessInfo) → p.killing ≡ false → Outcome false p (zombie_since now p)
zombie_since-Outcome now p e = elim (Bool-cases p.zombied) [
  | inl z ↦ simp z (refl, refl, refl, refl, refl, e)
  | inr z ↦ simp z (refl, refl, refl, refl, refl, e)
]

-- A process that is first left in its state and then killed.
killed_after : (p q r : ProcessInfo) → Outcome false p q → Outcome true q r → Outcome true p r
killed_after p q r kept killed =
    let pids : set_pid q.task_pid ++ set_pid q.lrvm_pid ≡ set_pid p.task_pid ++ set_pid p.lrvm_pid =
      ap (λ n. set_pid n ++ set_pid q.lrvm_pid) kept.1
      ∙ ap (λ n. set_pid p.task_pid ++ set_pid n) kept.2 in
    let signals =
      killed.4
      ∙ ap (λ l. l ++ (set_pid q.task_pid ++ set_pid q.lrvm_pid)) kept.4
      ∙ ap (λ l. p.signalled ++ l) pids in
    (killed.0, killed.1, killed.2, killed.3, signals, killed.5)

check_proc_zombie-Outcome :
    (c : RunSettings) (now : Timeval) (p : ProcessInfo)
    → p.killing ≡ false
    → Outcome (zombie_too_long c now (zombie_since now p)) p (check_proc_zombie c now p)
unfolding check_proc_zombie
check_proc_zombie-Outcome c now p e =
    let q = zombie_since now p in
    let kept = zombie_since-Outcome now p e in
    elim (Bool-cases (zombie_too_long c now q)) [
      | inl z ↦ rw z (
          killed_after p q (kill_locked (set_exec_error (codes "Suspesion in zombie") q) no_state)
            kept
            (kill_locked-Outcome (set_exec_error (codes "Suspesion in zombie") q) no_state kept.5))
      | inr z ↦ rw z kept
    ]

belts_check_limits-Outcome :
    (c : RunSettings) (s : Stats) (p : ProcessInfo)
    → p.killing ≡ false
    → Outcome
        (over_memory c (fill_from_stats c s p) || over_time c (fill_from_stats c s p))
        p
        (belts_check_limits c s p)
unfolding belts_check_limits
belts_check_limits-Outcome c s p e =
    let q = fill_from_stats c s p in
    elim (Bool-cases (over_memory c q || over_time c q)) [
      | inl over ↦ rw over (kill_locked-Outcome q (check_limits c q no_state) e)
      | inr within ↦ rw within (refl, refl, refl, refl, refl, e)
    ]

kept_before : (b : Bool) (p q r : ProcessInfo) → Outcome false p q → Outcome b q r → Outcome b p r
kept_before true p q r kept h = killed_after p q r kept h
kept_before false p q r kept h =
    (h.0 ∙ kept.0, h.1 ∙ kept.1, h.2 ∙ kept.2, h.3 ∙ kept.3, h.4 ∙ kept.4, h.5)

check_stats-Outcome :
    (c : RunSettings) (now : Timeval) (stats : Option Stats) (p : ProcessInfo)
    → p.killing ≡ false
    → Outcome (is_bad c now stats p) p (check_stats c now stats p)
check_stats-Outcome c now none p e = check_proc_zombie-Outcome c now p e
check_stats-Outcome c now (some s) p e = elim (Bool-cases (is_zombie s)) [
  | inl z ↦ rw z (check_proc_zombie-Outcome c now p e)
  | inr z ↦
      let q : ProcessInfo = record p { zombied = false } in
      rw z (
        kept_before (over_memory c (fill_from_stats c s q) || over_time c (fill_from_stats c s q)) p
          q (belts_check_limits c s q) (refl, refl, refl, refl, refl, e)
          (belts_check_limits-Outcome c s q e))
]

same-Outcome : (p : ProcessInfo) → p.killing ≡ false → Outcome false p p
same-Outcome p e = (refl, refl, refl, refl, refl, e)

overview_answered-Outcome :
    (c : RunSettings) (now : Timeval) (stats : Option Stats) (p : ProcessInfo)
    → p.killing ≡ false
    → Outcome
        (has_pids p && is_executing p.state && is_bad c now stats p)
        p
        (overview_answered c now stats p)
unfolding overview_answered
overview_answered-Outcome c now stats p e =
    by_test (has_pids p && is_executing p.state) (is_bad c now stats p) (check_stats c now stats p)
      (check_stats-Outcome c now stats p e)
  where
    by_test :
        (test bad : Bool) (q : ProcessInfo)
        → Outcome bad p q
        → Outcome (test && bad) p (if test then q else p)
    by_test true bad q h = h
    by_test false bad q h = same-Outcome p e

overview_answered-no_pids :
    (c : RunSettings) (now : Timeval) (stats : Option Stats) (p : ProcessInfo)
    → p.task_pid ≡ 0
    → overview_answered c now stats p ≡ p
unfolding overview_answered
overview_answered-no_pids c now stats p e =
    let gone : (has_pids p && is_executing p.state) ≡ false = ground (arith, e) in simp gone refl

check_lrvm_ans_timeout-late :
    (c : RunSettings) (now : Timeval) (p : ProcessInfo)
    → p.killing ≡ false
    → is_late c now p ≡ true
    → Outcome true p (check_lrvm_ans_timeout c now p)
unfolding check_lrvm_ans_timeout
check_lrvm_ans_timeout-late c now p e late = simp late (
    kill_locked-Outcome (set_exec_error (codes "Timelimit to answer from LRVM exceeded.") p)
      no_state e)

check_lrvm_ans_timeout-soon :
    (c : RunSettings) (now : Timeval) (p : ProcessInfo)
    → is_late c now p ≡ false
    → check_lrvm_ans_timeout c now p ≡ p
unfolding check_lrvm_ans_timeout
check_lrvm_ans_timeout-soon c now p soon = simp soon refl

-- `run_belts_overview` kills a process exactly if it must be killed: it is not locked, and the LRVM has
-- not answered for too long, or the process executes and has been without statistics or a zombie for too
-- long or is over a limit. Both its pids, where set, are then asked to end and are reset; otherwise its
-- state and its pids stay.
pub overview_process-Outcome :
    (c : RunSettings) (now : Timeval) (stats : Option Stats) (p : ProcessInfo)
    → p.killing ≡ false
    → Outcome (must_kill c now stats p) p (overview_process c now stats p)
unfolding overview_process
overview_process-Outcome c now stats p e =
    by_lock p.locked (overview_answered c now stats (check_lrvm_ans_timeout c now p))
      (by_answer (is_late c now p) refl)
  where
    bad : Bool
    bad = has_pids p && is_executing p.state && is_bad c now stats p

    by_answer :
        (late : Bool)
        → is_late c now p ≡ late
        → Outcome (late || bad) p (overview_answered c now stats (check_lrvm_ans_timeout c now p))
    by_answer true late =
        let killed = check_lrvm_ans_timeout-late c now p e late in
        subst (λ q. Outcome true p q)
          (sym (overview_answered-no_pids c now stats (check_lrvm_ans_timeout c now p) killed.1))
          killed
    by_answer false soon =
        subst (λ q. Outcome bad p (overview_answered c now stats q))
          (sym (check_lrvm_ans_timeout-soon c now p soon))
          (overview_answered-Outcome c now stats p e)

    by_lock :
        (locked : Bool) (q : ProcessInfo)
        → Outcome (is_late c now p || bad) p q
        → Outcome (not locked && (is_late c now p || bad)) p (if locked then p else q)
    by_lock true q h = same-Outcome p e
    by_lock false q h = h
