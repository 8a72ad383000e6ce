-- ===== src/Testing/Loop.antt =====
-- The rounds of `testing_main_loop` in webtester/modules/informatics/tester.c.
--
-- Resource limits and the change of the root directory are in what `run_solution` does.
use web_tester.Prelude.{
  ℕ, suc, Bool, ◌||◌, not, Option, none, some, List, [], ◌∷◌, ◌++◌, ℤ, Text, codes, ◌==◌,
  if◌then◌else◌,
}
use web_tester.Assarr.Pack.{digits}
use web_tester.Testing.Defs.{
  Process, is_runtime_error, Params, or_empty, at_start, after_solution, after_checker, Env,
  Settings, push_string, copy_test, build_checker_cmd, add_ℤ,
}
use web_tester.Testing.State.{
  re, ml, tl, wa, pe, Loop, Went, goes, leaves, crash, push_result, unlinked, err, store,
  store_pipe, at_most, at_test,
}

-- What stays the same in all rounds.
pub record Round : Type 0 where
  pub env : Env
  pub settings : Settings
  pub input : Params
  pub testing_dir : Text
  pub data_dir : Text
  pub acm : Bool
  pub total : ℕ

-- The `switch` on the exit code; the message of the last case has the number of the test for `%d`
unfoldable pub overview_exit : Round → ℕ → ℤ → Process → Loop → Went
unfolding crash err push_string
overview_exit r i test proc s =
    if proc.exit_code == 0
    then goes (unlinked (push_result (codes "OK") (record s { points = add_ℤ s.points test })))
    else if proc.exit_code == 1
    then err r.acm wa s
    else if proc.exit_code == 2
    then err r.acm pe s
    else crash
        (at_test (codes "Checker exited with unknown code: ") i
          (10 ∷ codes "Buffer from checker: " ++ or_empty proc.pipe))
        s

-- From the running of the checker on, on the solution's output `text`.
unfoldable pub check_output : Round → ℕ → ℤ → Text → Text → Loop → Went
unfolding crash overview_exit
check_output r i test cmd text s =
    let proc = r.env.run_checker i cmd text in
    if r.env.stopped i after_checker
    then leaves s
    else if proc.exec_error
    then crash
        (at_test (codes "Error executing checker at test #") i
          (codes ": " ++ proc.error_desc ++ codes "."))
        s
    else if proc.terminated
    then crash
        (at_test (codes "Abnormal checker termination at test #") i
          (codes ". TERM signal: " ++ digits proc.term_sig ++ codes "."))
        s
    else if proc.memory_limit || proc.time_limit
    then crash
        (at_test (codes "Resource limit exceeded while executing checker at test #") i (codes ". "))
        s
    else overview_exit r i test proc
        (record s { checker_outputs = store_pipe i proc.pipe s.checker_outputs })

-- Where the solution has ended well: without an output file there is nothing to check.
unfoldable pub overview_output : Round → ℕ → ℤ → Text → Option Text → Loop → Went
unfolding err check_output
overview_output r i test cmd none s = err r.acm pe s
overview_output r i test cmd (some text) s =
    check_output r i test cmd text
      (record s { outputs = store i (at_most r.settings.max_output_store_size text) s.outputs })

-- The overview of the solution's status.
unfoldable pub overview_solution : Round → ℕ → ℤ → Text → Process → Loop → Went
unfolding err overview_output
overview_solution r i test cmd proc s =
    if proc.memory_limit
    then err r.acm ml s
    else if proc.time_limit
    then err r.acm tl s
    else if is_runtime_error proc
    then err r.acm re s
    else overview_output r i test cmd s.output s

-- One round of the loop on the tests.
unfoldable pub run_test : Round → ℕ → ℤ → Loop → Went
unfolding crash overview_solution copy_test build_checker_cmd
run_test r i test s =
    let cmd = build_checker_cmd r.env r.settings r.input r.testing_dir r.data_dir (suc i) r.total in
    let (proc, output) = r.env.run_solution i s.output in
    let ran = record s { output = output } in
    if r.env.stopped i at_start
    then leaves s
    else if not (
        copy_test r.env r.settings (suc i) r.total r.data_dir r.testing_dir
          (or_empty (r.input (codes "INPUTFILE"))))
    then crash (at_test (codes "Error copying test #") i (codes ".")) s
    else if r.env.stopped i after_solution
    then leaves ran
    else if proc.exec_error
    then crash
        (at_test (codes "Error executing solution at test #") i
          (codes ": " ++ proc.error_desc ++ codes "."))
        ran
    else overview_solution r i test cmd proc ran

unfoldable pub run_tests : Round → ℕ → List ℤ → Loop → Loop
unfolding run_test
run_tests r i [] s = s
run_tests r i (test ∷ tests) s = elim (run_test r i test s) [
  | goes s' ↦ run_tests r (suc i) tests s'
  | leaves s' ↦ s'
]
