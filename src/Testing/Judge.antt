-- ===== src/Testing/Judge.antt =====
-- What each test of webtester/modules/informatics/tester.c comes to, without the loop's state, and that
-- a round of the loop notes just that.
use web_tester.Prelude.{
  ℕ, suc, ◌≡◌, refl, ap, ◌∙◌, Bool, true, false, ◌||◌, not, Option, none, some, ℤ, pos, Text, codes,
  ◌==◌, if◌then◌else◌, Bool-cases, inl, inr,
}
use web_tester.Testing.Defs.{
  Process, is_runtime_error, or_empty, at_start, after_solution, after_checker, copy_test,
  build_checker_cmd, push_string, add_ℤ,
}
use web_tester.Testing.State.{
  Kind, re, ml, tl, wa, pe, kind_name, Loop, Went, goes, leaves, crash, set_flag, push_result, err,
  store, store_pipe, at_most,
}
use web_tester.Testing.Loop.{
  Round, overview_exit, check_output, overview_output, overview_solution, run_test,
}

pub data Outcome : Type 0 where
  passed : Outcome
  failed : Kind → Outcome
  crashed : Outcome
  stopped : Outcome

-- The exit codes of testlib's `_OK`, `_WA` and `_PE`.
abbrev pub exit_outcome : Process → Outcome
exit_outcome proc =
    if proc.exit_code == 0
    then passed
    else if proc.exit_code == 1
    then failed wa
    else if proc.exit_code == 2
    then failed pe
    else crashed

-- The checker must run to its end within its limits.
abbrev pub checker_outcome : Round → ℕ → Process → Outcome
checker_outcome r i proc =
    if r.env.stopped i after_checker
    then stopped
    else if proc.exec_error || proc.terminated || proc.memory_limit || proc.time_limit
    then crashed
    else exit_outcome proc

abbrev pub command : Round → ℕ → Text
command r i = build_checker_cmd r.env r.settings r.input r.testing_dir r.data_dir (suc i) r.total

abbrev pub output_outcome : Round → ℕ → Option Text → Outcome
output_outcome r i none = failed pe
output_outcome r i (some text) = checker_outcome r i (r.env.run_checker i (command r i) text)

abbrev pub solution_outcome : Round → ℕ → Process → Option Text → Outcome
solution_outcome r i proc output =
    if proc.memory_limit
    then failed ml
    else if proc.time_limit
    then failed tl
    else if is_runtime_error proc
    then failed re
    else output_outcome r i output

abbrev pub is_copied : Round → ℕ → Bool
is_copied r i =
    copy_test r.env r.settings (suc i) r.total r.data_dir r.testing_dir
      (or_empty (r.input (codes "INPUTFILE")))

-- The outcome of test `i` on the output file that lies there before.
unfoldable pub judge : Round → ℕ → Option Text → Outcome
judge r i before =
    let (proc, output) = r.env.run_solution i before in
    if r.env.stopped i at_start
    then stopped
    else if not (is_copied r i)
    then crashed
    else if r.env.stopped i after_solution
    then stopped
    else if proc.exec_error
    then crashed
    else solution_outcome r i proc output

-- What the verdict depends on: all but the stored outputs, the output file and the parameters.
abbrev pub core : Loop → Loop
core s = record s { outputs = none; checker_outputs = none; output = none; params = λ k. none }

abbrev pub noted_pass : ℤ → Loop → Loop
noted_pass test s = push_result (codes "OK") (record s { points = add_ℤ s.points test })

abbrev pub noted_crash : Loop → Loop
noted_crash s = record s { points = pos 0; errors = codes "CR"; has_cr = true }

abbrev pub noted_failure : Kind → Loop → Loop
noted_failure kind s = push_result (kind_name kind) (set_flag kind s)

-- What a round makes of an outcome; the next round starts without an output file.
pub data Judged (acm : Bool) (test : ℤ) (s : Loop) : Outcome → Went → Type 0 where
  is_pass :
      (t : Loop)
      → t.output ≡ none
      → core t ≡ core (noted_pass test s)
      → Judged acm test s passed (goes t)
  is_failure :
      (kind : Kind) (t : Loop)
      → acm ≡ false
      → t.output ≡ none
      → core t ≡ core (noted_failure kind s)
      → Judged acm test s (failed kind) (goes t)
  is_last :
      (kind : Kind) (t : Loop)
      → acm ≡ true
      → core t ≡ core (noted_failure kind s)
      → Judged acm test s (failed kind) (leaves t)
  is_crash : (t : Loop) → core t ≡ core (noted_crash s) → Judged acm test s crashed (leaves t)
  is_stop : (t : Loop) → core t ≡ core s → Judged acm test s stopped (leaves t)

err-Judged :
    (acm : Bool) (test : ℤ) (kind : Kind) (s : Loop)
    → Judged acm test s (failed kind) (err acm kind s)
unfolding err push_string
err-Judged true test re s = is_last re _ refl refl
err-Judged true test ml s = is_last ml _ refl refl
err-Judged true test tl s = is_last tl _ refl refl
err-Judged true test wa s = is_last wa _ refl refl
err-Judged true test pe s = is_last pe _ refl refl
err-Judged false test re s = is_failure re _ refl refl refl
err-Judged false test ml s = is_failure ml _ refl refl refl
err-Judged false test tl s = is_failure tl _ refl refl refl
err-Judged false test wa s = is_failure wa _ refl refl refl
err-Judged false test pe s = is_failure pe _ refl refl refl

crash-Judged :
    (acm : Bool) (test : ℤ) (message : Text) (s : Loop)
    → Judged acm test s crashed (crash message s)
unfolding crash
crash-Judged acm test message s = is_crash _ refl

-- The same variables but for the stored outputs and the output file.
abbrev Agree : Loop → Loop → Type 0
Agree s t =
    t ≡ record s { outputs = t.outputs; checker_outputs = t.checker_outputs; output = t.output }

failure-Agree :
    (kind : Kind) (s t : Loop)
    → Agree s t
    → core (noted_failure kind t) ≡ core (noted_failure kind s)
failure-Agree re s t e = ap (λ x. core (noted_failure re x)) e
failure-Agree ml s t e = ap (λ x. core (noted_failure ml x)) e
failure-Agree tl s t e = ap (λ x. core (noted_failure tl x)) e
failure-Agree wa s t e = ap (λ x. core (noted_failure wa x)) e
failure-Agree pe s t e = ap (λ x. core (noted_failure pe x)) e

Judged-Agree :
    {acm : Bool} {test : ℤ} {o : Outcome} {w : Went} (s t : Loop)
    → Agree s t
    → Judged acm test t o w
    → Judged acm test s o w
Judged-Agree {test = test} s t e (is_pass u out c) =
    is_pass u out (c ∙ ap (λ x. core (noted_pass test x)) e)
Judged-Agree s t e (is_failure kind u a out c) =
    is_failure kind u a out (c ∙ failure-Agree kind s t e)
Judged-Agree s t e (is_last kind u a c) = is_last kind u a (c ∙ failure-Agree kind s t e)
Judged-Agree s t e (is_crash u c) = is_crash u (c ∙ ap (λ x. core (noted_crash x)) e)
Judged-Agree s t e (is_stop u c) = is_stop u (c ∙ ap core e)

overview_exit-Judged :
    (r : Round) (i : ℕ) (test : ℤ) (proc : Process) (s : Loop)
    → Judged r.acm test s (exit_outcome proc) (overview_exit r i test proc s)
unfolding overview_exit push_string
overview_exit-Judged r i test proc s = elim (Bool-cases (proc.exit_code == 0)) [
  | inl e ↦ rw e (is_pass _ refl refl)
  | inr e ↦ elim (Bool-cases (proc.exit_code == 1)) [
    | inl f ↦ rw (e, f) (err-Judged r.acm test wa s)
    | inr f ↦ elim (Bool-cases (proc.exit_code == 2)) [
      | inl g ↦ rw (e, f, g) (err-Judged r.acm test pe s)
      | inr g ↦ rw (e, f, g) (crash-Judged r.acm test _ s)
    ]
  ]
]

check_output-Judged :
    (r : Round) (i : ℕ) (test : ℤ) (cmd text : Text) (s : Loop)
    → Judged r.acm test s
        (checker_outcome r i (r.env.run_checker i cmd text))
        (check_output r i test cmd text s)
unfolding check_output
check_output-Judged r i test cmd text s =
    let proc = r.env.run_checker i cmd text in
    elim (Bool-cases (r.env.stopped i after_checker)) [
      | inl e ↦ rw e (is_stop s refl)
      | inr e ↦ elim (Bool-cases proc.exec_error) [
        | inl f ↦ rw (e, f) (crash-Judged r.acm test _ s)
        | inr f ↦ elim (Bool-cases proc.terminated) [
          | inl g ↦ rw (e, f, g) (crash-Judged r.acm test _ s)
          | inr g ↦ elim (Bool-cases (proc.memory_limit || proc.time_limit)) [
            | inl h ↦ rw (e, f, g, h) (crash-Judged r.acm test _ s)
            | inr h ↦
                rw (e, f, g, h)
                  (Judged-Agree s _ refl (
                    overview_exit-Judged r i test proc
                      (record s { checker_outputs = store_pipe i proc.pipe s.checker_outputs })))
          ]
        ]
      ]
    ]

overview_output-Judged :
    (r : Round) (i : ℕ) (test : ℤ) (output : Option Text) (s : Loop)
    → Judged r.acm test s
        (output_outcome r i output)
        (overview_output r i test (command r i) output s)
unfolding overview_output
overview_output-Judged r i test none s = err-Judged r.acm test pe s
overview_output-Judged r i test (some text) s =
    let kept = store i (at_most r.settings.max_output_store_size text) s.outputs in
    let t : Loop = record s { outputs = kept } in
    Judged-Agree s t refl (check_output-Judged r i test (command r i) text t)

overview_solution-Judged :
    (r : Round) (i : ℕ) (test : ℤ) (proc : Process) (s : Loop)
    → Judged r.acm test s
        (solution_outcome r i proc s.output)
        (overview_solution r i test (command r i) proc s)
unfolding overview_solution
overview_solution-Judged r i test proc s = elim (Bool-cases proc.memory_limit) [
  | inl e ↦ rw e (err-Judged r.acm test ml s)
  | inr e ↦ elim (Bool-cases proc.time_limit) [
    | inl f ↦ rw (e, f) (err-Judged r.acm test tl s)
    | inr f ↦ elim (Bool-cases (is_runtime_error proc)) [
      | inl g ↦ rw (e, f, g) (err-Judged r.acm test re s)
      | inr g ↦ rw (e, f, g) (overview_output-Judged r i test s.output s)
    ]
  ]
]

-- A round of the loop notes the outcome of its test.
pub run_test-Judged :
    (r : Round) (i : ℕ) (test : ℤ) (s : Loop)
    → Judged r.acm test s (judge r i s.output) (run_test r i test s)
unfolding judge run_test
run_test-Judged r i test s =
    let (proc, output) = r.env.run_solution i s.output in
    let ran : Loop = record s { output = output } in
    elim (Bool-cases (r.env.stopped i at_start)) [
      | inl e ↦ rw e (is_stop s refl)
      | inr e ↦ elim (Bool-cases (is_copied r i)) [
        | inr f ↦ rw (e, f) (crash-Judged r.acm test _ s)
        | inl f ↦ elim (Bool-cases (r.env.stopped i after_solution)) [
          | inl g ↦ rw (e, f, g) (is_stop ran refl)
          | inr g ↦ elim (Bool-cases proc.exec_error) [
            | inl h ↦ rw (e, f, g, h) (Judged-Agree s ran refl (crash-Judged r.acm test _ ran))
            | inr h ↦
                rw (e, f, g, h)
                  (Judged-Agree s ran refl (overview_solution-Judged r i test proc ran))
          ]
        ]
      ]
    ]
