-- ===== src/Testing/Examples.antt =====
-- A task with two tests, of which the solution passes the first.
use web_tester.Prelude.{
  ℕ, ◌+◌, ◌≤◌, ◌≡◌, refl, Bool, true, false, none, some, List, [], ◌∷◌, ℤ, pos, Text, codes, ◌==◌,
  if◌then◌else◌, arith, length,
}
use web_tester.Strings.Explode.{explode}
use web_tester.Strings.Trim.{trim}
use web_tester.Assarr.Pack.{atol, digits_value}
use web_tester.Time.{Timeval}
use web_tester.Task.Defs.{Task, spawn}
use web_tester.Testing.Defs.{Process, Params, set_param, or_empty, Env, Settings, add_ℤ, copy_test}
use web_tester.Testing.Defs.{replace_defaults}
use web_tester.Testing.MainLoop.{to_points, tests_of, graded, testing_main_loop}
use web_tester.Testing.Score.{results_of}
use web_tester.Testing.Verdict.{outcomes, score, verdict, testing_main_loop-score}
use web_tester.Testing.Compile.{Tools, compile_solution, build_compiler_command}
use web_tester.Testing.Thread.{no_params}
use web_tester.Testing.Errors.{
  compile_solution-result, testing_main_loop-missing_test, testing_main_loop-early_stop,
}
use web_tester.Testing.Bounds.{all_points, testing_main_loop-bounded}
use web_tester.Testing.Pool.{Pool, init_testing, Run, suspended-threads}

-- A process that ends by itself.
abbrev ended_with : ℕ → Process
ended_with code = record {
  exec_error = false;
  memory_limit = false;
  time_limit = false;
  terminated = false;
  finished = true;
  exit_code = code;
  term_sig = 0;
  pipe = none;
  error_desc = [];
}

abbrev settings : Settings
settings = record {
  testing_dir = codes "/t";
  data_dir = codes "/d";
  problems_dir = codes "p";
  source_file = codes "solution";
  file_to_exec = codes "solution";
  tst_ext = codes ".tst";
  checker_cmd_template = codes "check";
  max_output_store_size = 0;
  ret_props = some (codes "POINTS" ∷ codes "ERRORS" ∷ []);
}

-- `stop` says whether the first test finds testing inactive, `there` whether the tests' files exist.
abbrev surroundings : Bool → Bool → Env
surroundings stop there = record {
  stopped = λ i m. stop;
  stopped_after = false;
  left_output = none;
  replace_var = λ name text value. text;
  exists = λ name. there;
  copied = λ from to. true;
  run_solution = λ i before. (ended_with 0, some (codes "42"));
  run_checker = λ i cmd text. ended_with (if i == 0 then 0 else 1);
}

abbrev input : Params
input =
    set_param
      (set_param
        (set_param
          (set_param
            (set_param
              (set_param
                (set_param
                  (set_param (set_param no_params (codes "SOURCE") (codes "x")) (codes "COMPILERID")
                    (codes "c"))
                  (codes "BONUS") (codes "5"))
                (codes "INPUTFILE") (codes "in"))
              (codes "OUTPUTFILE") (codes "out"))
            (codes "MEMORYLIMIT") (codes "1"))
          (codes "TIMELIMIT") (codes "1"))
        (codes "ACM") (codes "FALSE"))
      (codes "TESTS") (codes "10 20")

abbrev tools : Tools
tools = record {
  config = λ path. some (codes "gcc");
  saved = λ name text. true;
  run_compiler_cmd = λ cmd dir. ended_with 0;
  compiled = λ name. true;
}

abbrev task : Task
task = spawn (pos 7) (pos 1)

abbrev two_tests : List ℤ
two_tests = pos 10 ∷ pos 20 ∷ []

input-tests : tests_of (or_empty (input (codes "TESTS"))) ≡ two_tests
unfolding tests_of to_points explode trim atol digits_value
input-tests = refl

few_tests : length (tests_of (or_empty (input (codes "TESTS")))) ≤ 1024
few_tests = rw input-tests (omega arith)

testing_main_loop-score_example :
    let ts = outcomes (surroundings false true) settings input (codes "/t/7") (codes "/d/p/a") in
    (after : Params) × (testing_main_loop
        (surroundings false true)
        settings
        input
        (codes "/t/7")
        (codes "/d/p/a")
        (pos 0)
        []
        no_params
      ≡ graded (score (atol (or_empty (input (codes "BONUS")))) ts) (verdict ts) after)
    × (after (codes "TESTS") ≡ some (results_of [] ts))
testing_main_loop-score_example =
    testing_main_loop-score (surroundings false true) settings input (codes "/t/7") (codes "/d/p/a")
      no_params (codes "POINTS" ∷ codes "ERRORS" ∷ []) few_tests refl refl

abbrev props : List Text
props = codes "POINTS" ∷ codes "ERRORS" ∷ []

compile_solution-result_example :
    (compile_solution
      (surroundings false true)
      tools
      settings
      input
      (codes "/t/1")
      (codes "/d/p/")
      no_params).0
    ≡ pos 1
unfolding build_compiler_command replace_defaults
compile_solution-result_example =
    compile_solution-result (surroundings false true) tools settings input (codes "/t/1")
      (codes "/d/p/") no_params

testing_main_loop-missing_test_example :
    (after : Params) × (testing_main_loop
        (surroundings false false)
        settings
        input
        (codes "/t/7")
        (codes "/d/p/a")
        (pos 0)
        []
        no_params
      ≡ graded (pos 0) (codes "CR") after)
unfolding copy_test
testing_main_loop-missing_test_example =
    testing_main_loop-missing_test (surroundings false false) settings input (codes "/t/7")
      (codes "/d/p/a") no_params props 1 few_tests refl refl refl (λ i m. refl)
      (rw input-tests (omega arith)) refl

testing_main_loop-early_stop_example :
    (after : Params) × (testing_main_loop
        (surroundings true true)
        settings
        input
        (codes "/t/7")
        (codes "/d/p/a")
        (pos 0)
        []
        no_params
      ≡ graded (add_ℤ (pos 0) (atol (or_empty (input (codes "BONUS"))))) (codes "OK") after)
    × (after (codes "TESTS") ≡ some [])
testing_main_loop-early_stop_example =
    testing_main_loop-early_stop (surroundings true true) settings input (codes "/t/7")
      (codes "/d/p/a") no_params props few_tests refl refl refl

testing_main_loop-bounded_example :
    (points : ℕ) × (errors : Text) × (after : Params) × (testing_main_loop
        (surroundings false true)
        settings
        input
        (codes "/t/7")
        (codes "/d/p/a")
        (pos 0)
        []
        no_params
      ≡ graded (pos points) errors after)
    × (points ≤ all_points (tests_of (or_empty (input (codes "TESTS")))) + 5)
unfolding atol digits_value
testing_main_loop-bounded_example =
    testing_main_loop-bounded (surroundings false true) settings input (codes "/t/7")
      (codes "/d/p/a") no_params props 5 few_tests refl refl (rw input-tests tt) refl

abbrev dirs : List Text
dirs = codes "1" ∷ codes "2" ∷ codes "3" ∷ []

abbrev zero_time : Timeval
zero_time = record { sec = 0; usec = 0 }

abbrev later_time : Timeval
later_time = record { sec = 60; usec = 0 }

abbrev pool : Pool
pool = init_testing 10

suspended-threads_example : (q : Pool) × Run pool q × (q.suspended ≡ true) × (q.threads ≡ 1)
suspended-threads_example = suspended-threads pool task refl refl (omega arith)
