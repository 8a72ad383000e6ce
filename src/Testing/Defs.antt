-- ===== src/Testing/Defs.antt =====
-- webtester/modules/informatics/tester.c: the tests' files, the processes, and the strings of results.
--
-- A process is what the macros of librun/run.h read of a `run_process_info_t` that has ended. Files,
-- processes and the mutex `active` are the parameter `Env`: each is asked at most once at a moment of a
-- test. The associative arrays of a run are their values by key (Assarr/Laws). Texts are shorter than
-- the buffers that the source copies them to; the log is left out.
use web_tester.Prelude.{
  ℕ, ◌+◌, Bool, false, ◌&&◌, ◌||◌, not, Option, none, some, List, [], ◌∷◌, ◌++◌, ℤ, pos_part,
  neg_part, sub_ℕ, Text, codes, is_nil, eq_text, ltb, ◌==◌, if◌then◌else◌,
}
use web_tester.Assarr.Pack.{digits}

-- `run_process_info_t` after `run_pwait`
pub record Process : Type 0 where
  pub exec_error : Bool
  pub memory_limit : Bool
  pub time_limit : Bool
  pub terminated : Bool
  pub finished : Bool
  pub exit_code : ℕ
  pub term_sig : ℕ
  pub pipe : Option Text
  pub error_desc : Text

-- `PROCESS_RUNTIME_ERROR`
abbrev pub is_runtime_error : Process → Bool
is_runtime_error p = p.terminated || (p.finished && not (p.exit_code == 0))

-- The values of an `assarr_t` by key, `none` for null.
abbrev pub Params : Type 0
Params = Text → Option Text

abbrev pub set_param : Params → Text → Text → Params
set_param params key value j = if eq_text key j then some value else params j

abbrev pub or_empty : Option Text → Text
or_empty none = []
or_empty (some t) = t

-- `REPORT`
unfoldable pub report : Text → Params → Params
report text params = set_param params (codes "REPORT") (or_empty (params (codes "REPORT")) ++ text)

-- Where a test asks for `active`: at its start, after the solution, after the checker.
pub data Moment : Type 0 where
  at_start after_solution after_checker : Moment

-- What a run asks of its surroundings. `stopped` is a success of `mutex_trylock (active)`; `replace_var`
-- is `REPLACE_VAR` of a variable, a text and a value; `copied` is a result 0 of `copyfile`;
-- `run_solution` is given the test and the output file that lies there, and leaves an output file;
-- `run_checker` is given the test, the command and the output file.
pub record Env : Type 0 where
  pub stopped : ℕ → Moment → Bool
  pub stopped_after : Bool
  pub left_output : Option Text
  pub replace_var : Text → Text → Text → Text
  pub exists : Text → Bool
  pub copied : Text → Text → Bool
  pub run_solution : ℕ → Option Text → Process × Option Text
  pub run_checker : ℕ → Text → Text → Process

-- The static variables that `read_config` sets.
pub record Settings : Type 0 where
  pub testing_dir : Text
  pub data_dir : Text
  pub problems_dir : Text
  pub source_file : Text
  pub file_to_exec : Text
  pub tst_ext : Text
  pub checker_cmd_template : Text
  pub max_output_store_size : ℕ
  pub ret_props : Option (List Text)

-- `push_string`
unfoldable pub push_string : Text → Text → Text → Text
push_string item delimiter buf = if is_nil buf then item else buf ++ delimiter ++ item

-- `printf ("%02d")` and `("%03d")`
unfoldable pub padded2 : ℕ → Text
padded2 n = if ltb n 10 then 48 ∷ digits n else digits n

unfoldable pub padded3 : ℕ → Text
unfolding padded2
padded3 n = if ltb n 100 then 48 ∷ padded2 n else digits n

unfoldable pub testnum : ℕ → ℕ → Text
unfolding padded2 padded3
testnum num total = if ltb total 100 then padded2 num else padded3 num

unfoldable pub replace_defaults : Env → Settings → Text → Text → Text → Text
replace_defaults env settings cur_testing_dir cur_data_dir str =
    let first = env.replace_var (codes "testing_dir") str settings.testing_dir in
    let second = env.replace_var (codes "data_dir") first settings.data_dir in
    let third = env.replace_var (codes "cur_testing_dir") second cur_testing_dir in
    env.replace_var (codes "cur_data_dir") third cur_data_dir

-- The test file's name in the data directory.
abbrev pub test_file : Settings → ℕ → ℕ → Text → Text
test_file settings num total data_dir =
    data_dir ++ codes "/" ++ testnum num total ++ settings.tst_ext

unfoldable pub copy_test : Env → Settings → ℕ → ℕ → Text → Text → Text → Bool
unfolding testnum
copy_test env settings num total data_dir dst name =
    let src = test_file settings num total data_dir in
    if not (env.exists src) then false else env.copied src (dst ++ codes "/" ++ name)

unfoldable pub build_checker_cmd : Env → Settings → Params → Text → Text → ℕ → ℕ → Text
unfolding testnum replace_defaults
build_checker_cmd env settings input cur_testing_dir cur_data_dir num total =
    let cmd =
      replace_defaults env settings cur_testing_dir cur_data_dir settings.checker_cmd_template in
    let with_test = env.replace_var (codes "test") cmd (testnum num total) in
    let with_input =
      env.replace_var (codes "input_file") with_test (or_empty (input (codes "INPUTFILE"))) in
    env.replace_var (codes "output_file") with_input (or_empty (input (codes "OUTPUTFILE")))

-- C's addition of two numbers that stay in range.
abbrev pub add_ℤ : ℤ → ℤ → ℤ
add_ℤ a b = sub_ℕ (pos_part a + pos_part b) (neg_part a + neg_part b)
