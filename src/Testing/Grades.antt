-- ===== src/Testing/Grades.antt =====
-- What a testing thread of webtester/modules/informatics/tester.c leaves on each of its ways.
use web_tester.Prelude.{
  ◌<◌, ◌≡◌, ◌⊎◌, refl, Bool, true, false, ◌&&◌, Option, none, some, List, [], ◌∷◌, ◌++◌, ℤ, Text,
  codes, is_nil, if◌then◌else◌, arith, Option-cases, inl, inr, length,
}
use web_tester.Task.Defs.{Task, finished, interrupted}
use web_tester.Testing.Defs.{Params, set_param, or_empty, push_string, Settings}
use web_tester.Testing.MainLoop.{is_member, tests_of, max_tests, Graded, graded}
use web_tester.Testing.Thread.{
  show, required_params, check_loop, check_required_params, Ended, ended, faulted, result_message,
}

-- The names of those that have no value, in order.
abbrev pub missing : List Text → Params → List Text
missing [] input = []
missing (p ∷ ps) input = elim (input p) [
  | none ↦ p ∷ missing ps input
  | some value ↦ missing ps input
]

-- The texts with a comma and a space between them, behind what is there.
abbrev pub listed : Text → List Text → Text
listed err [] = err
listed err (p ∷ ps) = listed (if is_nil err then p else err ++ codes ", " ++ p) ps

check_loop-missing :
    (ps : List Text) (input : Params) (err : Text) (res : Bool)
    → check_loop ps input err res
      ≡ (res && is_nil (missing ps input), listed err (missing ps input))
unfolding check_loop push_string
check_loop-missing [] input err res = ground arith
check_loop-missing (p ∷ ps) input err res = elim (Option-cases (input p)) [
  | inl e ↦
      rw
        (
          e,
          check_loop,
          missing,
          check_loop-missing ps input (if is_nil err then p else err ++ codes ", " ++ p) false,
        )
        (ground arith)
  | inr (v, e) ↦ rw (e, check_loop, missing, check_loop-missing ps input err res) refl
]

-- The parameters are complete exactly if none of the required ones is missing; the text names the
-- missing ones in order.
check_required_params-missing :
    (input : Params)
    → check_required_params input
      ≡ (is_nil (missing required_params input), listed [] (missing required_params input))
unfolding check_required_params
check_required_params-missing input = check_loop-missing required_params input [] true

-- The parameters of a run with its points and errors.
abbrev pub with_result : Params → ℤ → Text → Params
with_result params points errors =
    set_param (set_param params (codes "POINTS") (show points)) (codes "ERRORS") errors

-- Each property of the list has its value, the empty text where there is none.
abbrev pub output_value : Option (List Text) → Params → Params → Params
output_value none params output p = output p
output_value (some props) params output p =
    if is_member p props then some (or_empty (params p)) else output p

-- What a thread may leave: the status, the message and the output parameters go together.
pub data Ends (settings : Settings) (task : Task) (input output : Params) : Ended → Type 0 where
  is_interrupted :
      (t : Task)
      → t ≡ record task { status = interrupted }
      → Ends settings task input output (ended t output)
  is_finished :
      (t : Task) (after : Params) (points : ℤ) (errors : Text) (params : Params)
      → t ≡ record task { status = finished; message = result_message points errors input }
      → ((p : Text)
          → after p ≡ output_value settings.ret_props (with_result params points errors) output p)
      → Ends settings task input output (ended t after)
  is_faulted :
      (settings.ret_props ≡ none)
        ⊎ (max_tests < length (tests_of (or_empty (input (codes "TESTS")))))
      → Ends settings task input output faulted

-- The main loop has faulted, for lack of a list of properties or with too many tests, or has ended.
abbrev IsGraded : Settings → Params → Graded → Type 0
IsGraded settings input g =
    ((settings.ret_props ≡ none)
      ⊎ (max_tests < length (tests_of (or_empty (input (codes "TESTS"))))))
    ⊎ ((points : ℤ) × (errors : Text) × (after : Params) × (g ≡ graded points errors after))
