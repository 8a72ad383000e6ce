-- ===== src/Testing/Thread.antt =====
-- `testing_thread` of webtester/modules/informatics/tester.c, with the checks of the input parameters
-- and the output parameters.
--
-- The directories that are made and removed, the lock file and the log are left out.
use web_tester.Prelude.{
  zero, suc, ◌+◌, Bool, true, false, not, Option, none, some, List, [], ◌∷◌, ◌++◌, ℤ, pos, negsuc,
  pos_part, neg_part, sub_ℕ, Text, codes, eq_text, if◌then◌else◌,
}
use web_tester.Assarr.Pack.{digits, atol}
use web_tester.Task.Defs.{Task, running, finished, interrupted}
use web_tester.Testing.Defs.{Params, set_param, or_empty, report, push_string, Env, Settings}
use web_tester.Testing.Compile.{Tools, save_solution, compile_solution}
use web_tester.Testing.MainLoop.{Graded, graded, overrun, null_read, testing_main_loop}

-- `printf ("%d")`
abbrev pub show : ℤ → Text
show (pos n) = digits n
show (negsuc n) = 45 ∷ digits (suc n)

abbrev pub sub_ℤ : ℤ → ℤ → ℤ
sub_ℤ a b = sub_ℕ (pos_part a + neg_part b) (neg_part a + pos_part b)

abbrev pub required_params : List Text
required_params =
    codes "SOURCE"
    ∷ codes "COMPILERID"
    ∷ codes "BONUS"
    ∷ codes "INPUTFILE"
    ∷ codes "OUTPUTFILE"
    ∷ codes "MEMORYLIMIT"
    ∷ codes "TIMELIMIT"
    ∷ codes "ACM"
    ∷ codes "TESTS"
    ∷ []

-- The loop of `check_required_params`, with `__err` and `res`.
unfoldable pub check_loop : List Text → Params → Text → Bool → Bool × Text
check_loop [] input err res = (res, err)
check_loop (cur ∷ rest) input err res = elim (input cur) [
  | none ↦ check_loop rest input (push_string cur (codes ", ") err) false
  | some value ↦ check_loop rest input err res
]

unfoldable pub check_required_params : Params → Bool × Text
check_required_params input = check_loop required_params input [] true

-- The loop of `set_output_params`.
unfoldable pub output_loop : List Text → Params → Params → Params
output_loop [] params output = output
output_loop (prop ∷ props) params output =
    output_loop props params (set_param output prop (or_empty (params prop)))

abbrev pub set_listed : Option (List Text) → Params → Params → Params
set_listed none params output = output
set_listed (some props) params output = output_loop props params output

unfoldable pub set_output_params : Settings → Params → Params → Params
set_output_params settings params output = set_listed settings.ret_props params output

-- What a thread leaves: the task and its output parameters; or one of the faults of the main loop.
pub data Ended : Type 0 where
  ended : Task → Params → Ended
  faulted : Ended

-- The message of the result.
unfoldable pub result_message : ℤ → Text → Params → Text
result_message points errors input =
    let bonus = atol (or_empty (input (codes "BONUS"))) in
    if eq_text errors (codes "OK")
    then codes "Points: " ++ show (sub_ℤ points bonus) ++ codes ". Bonus: " ++ show bonus
    else codes "Points: " ++ show points ++ codes ". Errors: " ++ errors

-- From `__done_` on.
unfoldable pub thread_done : Settings → Task → Params → Params → ℤ → Text → Params → Ended
thread_done settings task input output points errors params =
    let with_points = set_param params (codes "POINTS") (show points) in
    let with_errors = set_param with_points (codes "ERRORS") errors in
    ended (record task { message = result_message points errors input; status = finished })
      (set_output_params settings with_errors output)

-- From `__free_` on.
unfoldable pub thread_free : Task → Params → Ended
thread_free task output = ended (record task { status = interrupted }) output

abbrev pub no_params : Params
no_params key = none

-- After the main loop: `stopped` is the second `TESTING_CHECK_ACTIVE`.
unfoldable pub overview_graded : Settings → Task → Params → Params → Bool → Graded → Ended
overview_graded settings task input output stopped (graded points errors params) =
    if stopped
    then thread_free task output
    else thread_done settings task input output points errors params
overview_graded settings task input output stopped overrun = faulted
overview_graded settings task input output stopped null_read = faulted

-- After `compile_solution` with its result.
unfoldable pub overview_compiling :
    Env → Settings → Task → Params → Params → Text → Text → Bool → Bool → ℤ → Params → Ended
overview_compiling env settings task input output cur_testing_dir cur_data_dir stopped stopped_end
      (negsuc n) params =
    if stopped
    then thread_free task output
    else thread_done settings task input output (pos 0) (codes "CR") params
overview_compiling env settings task input output cur_testing_dir cur_data_dir stopped stopped_end
      (pos zero) params =
    if stopped
    then thread_free task output
    else thread_done settings task input output (pos 0) (codes "CE") params
overview_compiling env settings task input output cur_testing_dir cur_data_dir stopped stopped_end
      (pos (suc n)) params =
    if stopped
    then thread_free task output
    else overview_graded settings task input output stopped_end
        (testing_main_loop env settings input cur_testing_dir cur_data_dir (pos 0) [] params)

-- `testing_thread`; the two Booleans are the successes of `mutex_trylock (active)` after the compiling
-- and at the end. A problem's name that is missing is the empty text here.
unfoldable pub testing_thread :
    Env → Tools → Settings → Bool → Bool → Task → Params → Params → Ended
testing_thread env tools settings stopped stopped_end task input output =
    let started = record task { status = running } in
    let cur_testing_dir = settings.testing_dir ++ codes "/" ++ show task.sid in
    let cur_data_dir =
      settings.data_dir
      ++ codes "/"
      ++ settings.problems_dir
      ++ codes "/"
      ++ or_empty (input (codes "PROBLEMID")) in
    let (defined, missing) = check_required_params input in
    let (rc, params) =
      compile_solution env tools settings input cur_testing_dir cur_data_dir no_params in
    if not defined
    then thread_done settings started input output (pos 0) (codes "CR")
        (report (codes "Required params aren't defined: " ++ missing ++ codes ".") no_params)
    else if not (save_solution tools settings input cur_testing_dir)
    then thread_done settings started input output (pos 0) (codes "CR")
        (report (codes "Error saving solution.") no_params)
    else overview_compiling env settings started input output cur_testing_dir cur_data_dir stopped
        stopped_end rc params
