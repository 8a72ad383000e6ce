-- ===== src/Testing/Errors.antt =====
-- The errors of compiling and of testing in webtester/modules/informatics/tester.c.
use web_tester.Prelude.{
  ℕ, zero, suc, ◌+◌, ◌≤◌, ◌<◌, ◌≡◌, ◌≢◌, refl, ap, ◌∙◌, subst, true, false, ◌&&◌, not, Option, none,
  some, List, [], ◌∷◌, ◌++◌, ℤ, pos, negsuc, Text, codes, is_nil, eq_text, if◌then◌else◌, arith,
  length,
}
use web_tester.Assarr.Pack.{atol}
use web_tester.Testing.Defs.{
  Params, or_empty, Env, Settings, is_runtime_error, Moment, at_start, after_solution,
  after_checker, add_ℤ, copy_test,
}
use web_tester.Testing.Compile.{
  Tools, compile_solution, run_compiler, post_compiling_check, build_compiler_command,
  executable_file,
}
use web_tester.Testing.Loop.{Round}
use web_tester.Testing.Judge.{Outcome, passed, failed, crashed, stopped, judge, is_copied}
use web_tester.Testing.MainLoop.{tests_of, max_tests, graded, testing_main_loop, round_of}
use web_tester.Testing.Score.{ends, trail, has_crashed, results_of}
use web_tester.Task.Defs.{Task}
use web_tester.Testing.Verdict.{outcomes, score, verdict, testing_main_loop-score, graded-same}

-- Compiling is refused, with -1, only without a command. A compiler that ends with a runtime error is a
-- failure; otherwise, also where the compiler could not be executed at all, the result is whether the
-- executable file is there.
pub compile_solution-result :
    (env : Env) (tools : Tools) (settings : Settings) (input : Params) (testing data_dir : Text)
    (params : Params)
    → let cmd = build_compiler_command env tools settings input testing data_dir in
      let proc = tools.run_compiler_cmd cmd testing in
      (compile_solution env tools settings input testing data_dir params).0 ≡ (
        if is_nil cmd
        then negsuc 0
        else if not proc.exec_error && is_runtime_error proc
        then pos 0
        else if tools.compiled (testing ++ codes "/" ++ executable_file tools settings input)
        then pos 1
        else pos 0)
unfolding compile_solution run_compiler post_compiling_check
compile_solution-result env tools settings input testing data_dir params = ground arith

-- Testing is never stopped at a test.
abbrev pub NeverStopped : Env → Type 0
NeverStopped env = (i : ℕ) (m : Moment) → env.stopped i m ≡ false

judge-stopped :
    (r : Round) (i : ℕ) (before : Option Text) → NeverStopped r.env → judge r i before ≢ stopped
unfolding judge
judge-stopped r i before never e =
    ground (arith, never i at_start, never i after_solution, never i after_checker)

judge-crashed :
    (r : Round) (i : ℕ) (before : Option Text)
    → NeverStopped r.env
    → is_copied r i ≡ false
    → judge r i before ≡ crashed
unfolding judge
judge-crashed r i before never e = ground (arith, never i at_start)

has_crashed-head :
    (test : ℤ) (o : Outcome) (ts : List (ℤ × Outcome))
    → has_crashed ts ≡ true
    → has_crashed ((test, o) ∷ ts) ≡ true
has_crashed-head test o ts h = ground arith

trail-crashed :
    (r : Round) (i k : ℕ) (before : Option Text) (tests : List ℤ)
    → r.acm ≡ false
    → NeverStopped r.env
    → k < length tests
    → is_copied r (i + k) ≡ false
    → has_crashed (trail r i before tests) ≡ true
unfolding trail
trail-crashed r i k before [] rules never less missing = let no : ⊥ = omega arith in elim no [ ]
trail-crashed r i zero before (test ∷ tests) rules never less missing =
    let same : i + 0 ≡ i = omega arith in
    rw (judge-crashed r i before never (subst (λ n. is_copied r n ≡ false) same missing)) refl
trail-crashed r i (suc k) before (test ∷ tests) rules never less missing =
    let same : i + suc k ≡ suc i + k = omega arith in
    let more =
      trail-crashed r (suc i) k none tests rules never (omega arith)
        (subst (λ n. is_copied r n ≡ false) same missing) in
    goes_on (judge r i before) refl more
  where
    goes_on :
        (o : Outcome)
        → judge r i before ≡ o
        → has_crashed (trail r (suc i) none tests) ≡ true
        → has_crashed ((test, o) ∷ (if ends r.acm o then [] else trail r (suc i) none tests)) ≡ true
    goes_on passed e more = more
    goes_on (failed kind) e more = ground (arith, more, rules)
    goes_on crashed e more = refl
    goes_on stopped e more = elim (judge-stopped r i before never e) [ ]

abbrev tests_count : Params → ℕ
tests_count input = length (tests_of (or_empty (input (codes "TESTS"))))

crash_graded :
    (ts : List (ℤ × Outcome)) (bonus : ℤ) (after : Params)
    → has_crashed ts ≡ true
    → graded (score bonus ts) (verdict ts) after ≡ graded (pos 0) (codes "CR") after
crash_graded ts bonus after h = rw h refl

-- Without the rules of the ACM and without an interruption, one test whose file cannot be copied makes
-- the whole testing crash, whatever the solution does on the others: no points, and "CR" as the error.
pub testing_main_loop-missing_test :
    (env : Env) (settings : Settings) (input : Params) (testing data_dir : Text) (params : Params)
    (props : List Text) (k : ℕ)
    → tests_count input ≤ max_tests
    → settings.ret_props ≡ some props
    → env.stopped_after ≡ false
    → input (codes "ACM") ≡ some (codes "FALSE")
    → NeverStopped env
    → k < tests_count input
    → copy_test env settings
        (suc k)
        (tests_count input)
        data_dir
        testing
        (or_empty (input (codes "INPUTFILE")))
      ≡ false
    → (after : Params) × (testing_main_loop env settings input testing data_dir (pos 0) [] params
        ≡ graded (pos 0) (codes "CR") after)
testing_main_loop-missing_test env settings input testing data_dir params props k few configured
      active rules never less missing =
    let r = round_of env settings input testing data_dir (tests_count input) in
    let ts = outcomes env settings input testing data_dir in
    let (after, e, results) =
      testing_main_loop-score env settings input testing data_dir params props few configured
        active in
    let first : k ≡ 0 + k = omega arith in
    let crash : has_crashed ts ≡ true =
      trail-crashed r 0 k env.left_output (tests_of (or_empty (input (codes "TESTS"))))
        (ap (λ o. eq_text (or_empty o) (codes "TRUE")) rules) never less
        (subst (λ n. is_copied r n ≡ false) first missing) in
    (after, e ∙ crash_graded ts _ after crash)

judge-inactive :
    (r : Round) (i : ℕ) (before : Option Text)
    → r.env.stopped i at_start ≡ true
    → judge r i before ≡ stopped
unfolding judge
judge-inactive r i before h = ground arith

trail-inactive :
    (r : Round) (i : ℕ) (before : Option Text) (tests : List ℤ) (bonus : ℤ)
    → r.env.stopped i at_start ≡ true
    → (score bonus (trail r i before tests) ≡ add_ℤ (pos 0) bonus)
      × (verdict (trail r i before tests) ≡ codes "OK")
      × (results_of [] (trail r i before tests) ≡ [])
unfolding trail results_of
trail-inactive r i before [] bonus h = (refl, refl, refl)
trail-inactive r i before (test ∷ tests) bonus h =
    let stop = judge-inactive r i before h in (rw stop refl, rw stop refl, rw stop refl)

-- Where the first test finds testing inactive, but testing is active again at the end, no test is run
-- and the bonus is given with "OK": `mutex_trylock` also fails while another thread holds the mutex for
-- such a check.
pub testing_main_loop-early_stop :
    (env : Env) (settings : Settings) (input : Params) (testing data_dir : Text) (params : Params)
    (props : List Text)
    → tests_count input ≤ max_tests
    → settings.ret_props ≡ some props
    → env.stopped_after ≡ false
    → env.stopped 0 at_start ≡ true
    → (after : Params) × (testing_main_loop env settings input testing data_dir (pos 0) [] params
        ≡ graded (add_ℤ (pos 0) (atol (or_empty (input (codes "BONUS"))))) (codes "OK") after)
      × (after (codes "TESTS") ≡ some [])
testing_main_loop-early_stop env settings input testing data_dir params props few configured active
      stop =
    let bonus = atol (or_empty (input (codes "BONUS"))) in
    let r = round_of env settings input testing data_dir (tests_count input) in
    let (after, e, results) =
      testing_main_loop-score env settings input testing data_dir params props few configured
        active in
    let (points, errors, none_run) =
      trail-inactive r 0 env.left_output (tests_of (or_empty (input (codes "TESTS")))) bonus stop in
    (after, e ∙ graded-same after points errors, results ∙ ap some none_run)
