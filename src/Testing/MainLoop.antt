-- ===== src/Testing/MainLoop.antt =====
-- `testing_main_loop` of webtester/modules/informatics/tester.c, from the task's parameters to the
-- points, the errors and the parameters for the web interface.
use web_tester.Prelude.{
  ℕ, Bool, false, ◌&&◌, ◌||◌, Option, none, some, List, [], ◌∷◌, ℤ, Text, codes, is_nil, eq_text,
  length, ltb, if◌then◌else◌,
}
use web_tester.Strings.Trim.{trim}
use web_tester.Strings.Explode.{explode}
use web_tester.Assarr.Table.{Table, create}
use web_tester.Assarr.Pack.{atol, pack}
use web_tester.Testing.Defs.{Params, set_param, or_empty, Env, Settings, push_string, add_ℤ}
use web_tester.Testing.State.{Kind, re, ml, tl, wa, pe, kind_name, Loop}
use web_tester.Testing.Loop.{Round, run_tests}

-- The loop that compares with each property.
unfoldable pub is_member : Text → List Text → Bool
is_member param [] = false
is_member param (p ∷ props) = eq_text p param || is_member param props

-- `tests[i] = atoi (tests_pchar_arr[i])`
unfoldable pub to_points : List Text → List ℤ
to_points [] = []
to_points (w ∷ ws) = atol w ∷ to_points ws

-- `need_store`; `none` where the list of properties is a null pointer, which it reads
unfoldable pub need_store : Settings → Text → Option Bool
unfolding is_member
need_store settings param = elim settings.ret_props [
  | none ↦ none
  | some props ↦ some (is_member param props)
]

-- The points of the tests, `TESTS` of the task's parameters.
unfoldable pub tests_of : Text → List ℤ
unfolding to_points
tests_of text = to_points (explode 32 (trim text))

unfoldable pub start_state : Env → Settings → Bool → Bool → ℤ → Text → Params → Loop
start_state env settings keep_output keep_checker points errors params = record {
  points = points;
  errors = errors;
  tests_res = [];
  has_re = false;
  has_ml = false;
  has_tl = false;
  has_wa = false;
  has_pe = false;
  has_cr = false;
  outputs = if keep_output && ltb 0 settings.max_output_store_size then some create else none;
  checker_outputs = if keep_checker then some create else none;
  output = env.left_output;
  params = params;
}

-- `if (flag) push_string (name, " ", __errors)`
abbrev pub push_if : Bool → Kind → Text → Text
push_if flag kind errors = if flag then push_string (kind_name kind) (codes " ") errors else errors

unfoldable pub push_errors : Loop → Text
unfolding push_string
push_errors s =
    let first = push_if s.has_re re s.errors in
    let second = push_if s.has_ml ml first in
    let third = push_if s.has_tl tl second in
    let fourth = push_if s.has_wa wa third in push_if s.has_pe pe fourth

-- `if (!CR)` with the bonus
unfoldable pub close : ℤ → Loop → Loop
close bonus s =
    let errors = push_errors s in
    if s.has_cr
    then s
    else if is_nil errors
    then record s { points = add_ℤ s.points bonus; errors = codes "OK" }
    else record s { errors = errors }

-- `STORE_OUTPUTS`
abbrev pub store_outputs : Option (Table Text) → Text → Params → Params
store_outputs none key params = params
store_outputs (some t) key params = set_param params key (pack t)

-- What `testing_main_loop` leaves: points, errors and parameters; or a write past `tests`; or a read
-- of the null pointer.
pub data Graded : Type 0 where
  graded : ℤ → Text → Params → Graded
  overrun : Graded
  null_read : Graded

-- From `__done_` on; where testing was stopped the testing directory is removed.
unfoldable pub finish : Bool → ℤ → Loop → Graded
finish stopped bonus s =
    let params = set_param s.params (codes "TESTS") s.tests_res in
    let closed = close bonus s in
    if stopped
    then graded s.points s.errors params
    else graded closed.points closed.errors (
        store_outputs s.checker_outputs (codes "CHECKER_OUTPUT")
          (store_outputs s.outputs (codes "SOLUTION_OUTPUT") params))

-- `MAX_TESTS`
abbrev pub max_tests : ℕ
max_tests = 1024

abbrev pub round_of : Env → Settings → Params → Text → Text → ℕ → Round
round_of env settings input cur_testing_dir cur_data_dir total = record {
  env = env;
  settings = settings;
  input = input;
  testing_dir = cur_testing_dir;
  data_dir = cur_data_dir;
  acm = eq_text (or_empty (input (codes "ACM"))) (codes "TRUE");
  total = total;
}

-- `testing_main_loop`, of a task with the required parameters
unfoldable pub testing_main_loop :
    Env → Settings → Params → Text → Text → ℤ → Text → Params → Graded
testing_main_loop env settings input cur_testing_dir cur_data_dir points errors params =
    let tests = tests_of (or_empty (input (codes "TESTS"))) in
    let bonus = atol (or_empty (input (codes "BONUS"))) in
    let total = length tests in
    let r = round_of env settings input cur_testing_dir cur_data_dir total in
    if ltb max_tests total then overrun else elim (need_store settings (codes "SOLUTION_OUTPUT")) [
      | none ↦ null_read
      | some keep_output ↦ elim (need_store settings (codes "CHECKER_OUTPUT")) [
        | none ↦ null_read
        | some keep_checker ↦ finish env.stopped_after bonus (
            run_tests r 0 tests
              (start_state env settings keep_output keep_checker points errors params))
      ]
    ]
