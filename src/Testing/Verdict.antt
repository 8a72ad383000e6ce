-- ===== src/Testing/Verdict.antt =====
-- The points and the errors that `testing_main_loop` of webtester/modules/informatics/tester.c gives.
use web_tester.Prelude.{
  ◌≤◌, ◌≡◌, refl, ap, ◌∙◌, Bool, true, false, ◌||◌, Option, none, some, List, [], ◌∷◌, ℤ, pos, Text,
  codes, if◌then◌else◌, arith, Bool-cases, inl, inr, length, is_nil, eq_text, ltb,
}
use web_tester.Strings.Explode.{join}
use web_tester.Assarr.Table.{Table}
use web_tester.Assarr.Pack.{atol}
use web_tester.Testing.Defs.{Env, Settings, Params, or_empty, push_string, add_ℤ}
use web_tester.Testing.State.{Kind, re, ml, tl, wa, pe, kind_name, Loop}
use web_tester.Testing.Loop.{Round, run_tests}
use web_tester.Testing.Judge.{Outcome, passed, failed, crashed, stopped}
use web_tester.Testing.Score.{trail, points_of, has_crashed, has_failed, results_of, flag, Reflects}
use web_tester.Testing.Refines.{run_tests-Reflects}
use web_tester.Testing.MainLoop.{
  need_store, is_member, tests_of, start_state, push_if, push_errors, close, store_outputs, graded,
  finish, max_tests, round_of, testing_main_loop,
}

abbrev pick : Bool → Kind → List Text → List Text
pick b kind names = if b then kind_name kind ∷ names else names

abbrev chosen : Bool → Bool → Bool → Bool → Bool → List Text
chosen a b c d e = pick a re (pick b ml (pick c tl (pick d wa (pick e pe []))))

-- The names of the errors that occurred, each once.
abbrev pub failures : List (ℤ × Outcome) → List Text
failures ts =
    chosen (has_failed re ts) (has_failed ml ts) (has_failed tl ts) (has_failed wa ts)
      (has_failed pe ts)

-- The text of the errors.
abbrev pub verdict : List (ℤ × Outcome) → Text
verdict ts =
    if has_crashed ts
    then codes "CR"
    else if is_nil (failures ts)
    then codes "OK"
    else join 32 (failures ts)

-- The points, with the bonus where no error occurred.
abbrev pub score : ℤ → List (ℤ × Outcome) → ℤ
score bonus ts =
    if has_crashed ts
    then pos 0
    else if is_nil (failures ts)
    then add_ℤ (points_of (pos 0) ts) bonus
    else points_of (pos 0) ts

points_of-crashed :
    (ts : List (ℤ × Outcome)) (p : ℤ) → has_crashed ts ≡ true → points_of p ts ≡ pos 0
points_of-crashed [] p h = cc
points_of-crashed ((test, passed) ∷ ts) p h = points_of-crashed ts _ h
points_of-crashed ((test, failed kind) ∷ ts) p h = points_of-crashed ts p h
points_of-crashed ((test, crashed) ∷ ts) p h = refl
points_of-crashed ((test, stopped) ∷ ts) p h = points_of-crashed ts p h

-- Pushing the names one after the other joins them.
push_if-join :
    (a b c d e : Bool)
    → push_if e pe (push_if d wa (push_if c tl (push_if b ml (push_if a re []))))
      ≡ join 32 (chosen a b c d e)
unfolding push_string
push_if-join a b c d e = ground arith

join-chosen : (a b c d e : Bool) → is_nil (join 32 (chosen a b c d e)) ≡ is_nil (chosen a b c d e)
join-chosen a b c d e = ground arith

abbrev IsClean : Loop → Type 0
IsClean s =
    (s.points ≡ pos 0)
    × (s.errors ≡ [])
    × (s.tests_res ≡ [])
    × ((k : Kind) → flag k s ≡ false)
    × (s.has_cr ≡ false)

push_errors-chosen :
    (s t : Loop) (ts : List (ℤ × Outcome))
    → IsClean s
    → Reflects s ts t
    → has_crashed ts ≡ false
    → push_errors t ≡ join 32 (failures ts)
unfolding push_errors
push_errors-chosen s t ts start h safe =
    let flags : (k : Kind) → flag k t ≡ has_failed k ts =
      λ k. h.flags k ∙ ap (λ b. b || has_failed k ts) (start.3 k) in
    let errors : t.errors ≡ [] = ground (arith, h.errors, safe, start.1) in
    rw (errors, flags re, flags ml, flags tl, flags wa, flags pe)
      (push_if-join (has_failed re ts) (has_failed ml ts) (has_failed tl ts) (has_failed wa ts)
        (has_failed pe ts))

-- The points and the errors that `close` leaves.
close-points :
    (bonus : ℤ) (t : Loop)
    → (close bonus t).points ≡ (
        if t.has_cr
        then t.points
        else if is_nil (push_errors t)
        then add_ℤ t.points bonus
        else t.points)
unfolding close
close-points bonus t = ground arith

close-errors :
    (bonus : ℤ) (t : Loop)
    → (close bonus t).errors ≡ (
        if t.has_cr then t.errors else if is_nil (push_errors t) then codes "OK" else push_errors t)
unfolding close
close-errors bonus t = ground arith

settled :
    {A : Type 0} {c cr n m : Bool} {u v a b : A} (x y : A)
    → c ≡ false
    → cr ≡ false
    → n ≡ m
    → u ≡ a
    → v ≡ b
    → (if cr then x else if n then u else v) ≡ (if c then y else if m then a else b)
settled x y c-false cr-false nm ua vb = ground (arith, c-false, cr-false, nm, ua, vb)

close-score :
    (bonus : ℤ) (s t : Loop) (ts : List (ℤ × Outcome))
    → IsClean s
    → Reflects s ts t
    → ((close bonus t).points ≡ score bonus ts) × ((close bonus t).errors ≡ verdict ts)
close-score bonus s t ts start h = elim (Bool-cases (has_crashed ts)) [
  | inl c ↦
      let crash : t.has_cr ≡ true = ground (arith, h.crash, c) in
      let points : t.points ≡ pos 0 = h.points ∙ points_of-crashed ts s.points c in
      let errors : t.errors ≡ codes "CR" =
        h.errors ∙ ap (λ b. if b then codes "CR" else s.errors) c in
      (
        ground (arith, close-points bonus t, crash, points, c),
        ground (arith, close-errors bonus t, crash, errors, c),
      )
  | inr c ↦
      let safe : t.has_cr ≡ false = ground (arith, h.crash, start.4, c) in
      let points : t.points ≡ points_of (pos 0) ts = h.points ∙ ap (λ p. points_of p ts) start.0 in
      let pushed = push_errors-chosen s t ts start h c in
      let empty : is_nil (push_errors t) ≡ is_nil (failures ts) =
        ap is_nil pushed
        ∙ join-chosen (has_failed re ts) (has_failed ml ts) (has_failed tl ts) (has_failed wa ts)
            (has_failed pe ts) in
      (
        close-points bonus t ∙ settled _ _ c safe empty (ap (λ p. add_ℤ p bonus) points) points,
        close-errors bonus t ∙ settled _ _ c safe empty refl pushed,
      )
]

-- The outcomes of the tests of `testing_main_loop`.
abbrev pub outcomes : Env → Settings → Params → Text → Text → List (ℤ × Outcome)
outcomes env settings input cur_testing_dir cur_data_dir =
    let tests = tests_of (or_empty (input (codes "TESTS"))) in
    trail (round_of env settings input cur_testing_dir cur_data_dir (length tests)) 0
      env.left_output tests

start-IsClean :
    (env : Env) (settings : Settings) (a b : Bool) (params : Params)
    → IsClean (start_state env settings a b (pos 0) [] params)
unfolding start_state
start-IsClean env settings a b params = (refl, refl, refl, λ k. ground arith, refl)

start_state-Reflects :
    (r : Round) (env : Env) (settings : Settings) (tests : List ℤ) (a b : Bool) (params : Params)
    → let s = start_state env settings a b (pos 0) [] params in
      Reflects s (trail r 0 env.left_output tests) (run_tests r 0 tests s)
unfolding start_state
start_state-Reflects r env settings tests a b params = run_tests-Reflects r 0 tests _

store_outputs-tests :
    (o : Option (Table Text)) (key : Text) (params : Params)
    → eq_text key (codes "TESTS") ≡ false
    → store_outputs o key params (codes "TESTS") ≡ params (codes "TESTS")
store_outputs-tests none key params h = refl
store_outputs-tests (some t) key params h = rw h refl

pub graded-same :
    {p q : ℤ} {e f : Text} (params : Params) → p ≡ q → e ≡ f → graded p e params ≡ graded q f params
graded-same params h k = cc

pub finish-graded :
    (stopped : Bool) (bonus : ℤ) (t : Loop)
    → (points : ℤ) × (errors : Text) × (params : Params) × (finish stopped bonus t
        ≡ graded points errors params)
unfolding finish
finish-graded true bonus t = (_, _, _, refl)
finish-graded false bonus t = (_, _, _, refl)

finish-tests :
    (bonus : ℤ) (t : Loop)
    → (params : Params) × (finish false bonus t
        ≡ graded (close bonus t).points (close bonus t).errors params)
      × (params (codes "TESTS") ≡ some t.tests_res)
unfolding finish
finish-tests bonus t = (
  _,
  refl,
  store_outputs-tests t.checker_outputs (codes "CHECKER_OUTPUT") _ refl
      ∙ store_outputs-tests t.outputs (codes "SOLUTION_OUTPUT") _ refl,
)

need_store-configured :
    (settings : Settings) (param : Text) (props : List Text)
    → settings.ret_props ≡ some props
    → need_store settings param ≡ some (is_member param props)
unfolding need_store
need_store-configured settings param props h = rw h refl

-- The main loop ends with `finish` on what the tests leave.
pub testing_main_loop-finish :
    (env : Env) (settings : Settings) (input : Params) (testing data_dir : Text) (points : ℤ)
    (errors : Text) (params : Params) (props : List Text)
    → let tests = tests_of (or_empty (input (codes "TESTS"))) in
      length tests ≤ max_tests
      → settings.ret_props ≡ some props
      → testing_main_loop env settings input testing data_dir points errors params
        ≡ finish env.stopped_after (atol (or_empty (input (codes "BONUS")))) (
            run_tests (round_of env settings input testing data_dir (length tests)) 0 tests (
              start_state env settings
                (is_member (codes "SOLUTION_OUTPUT") props)
                (is_member (codes "CHECKER_OUTPUT") props)
                points
                errors
                params))
unfolding testing_main_loop
testing_main_loop-finish env settings input testing data_dir points errors params props few
      configured =
    let room : ltb max_tests (length (tests_of (or_empty (input (codes "TESTS"))))) ≡ false =
      ground arith in
    rw
      (
        room,
        need_store-configured settings (codes "SOLUTION_OUTPUT") props configured,
        need_store-configured settings (codes "CHECKER_OUTPUT") props configured,
      )
      refl

-- Where a task has at most 1024 tests, the list of properties is configured and testing is still active
-- at the end, the main loop gives the score of the outcomes of the tests that were run and the errors
-- among them, and the results of those tests one by one.
pub testing_main_loop-score :
    (env : Env) (settings : Settings) (input : Params) (testing data_dir : Text) (params : Params)
    (props : List Text)
    → length (tests_of (or_empty (input (codes "TESTS")))) ≤ max_tests
    → settings.ret_props ≡ some props
    → env.stopped_after ≡ false
    → let ts = outcomes env settings input testing data_dir in
      (after : Params) × (testing_main_loop env settings input testing data_dir (pos 0) [] params
        ≡ graded (score (atol (or_empty (input (codes "BONUS")))) ts) (verdict ts) after)
      × (after (codes "TESTS") ≡ some (results_of [] ts))
testing_main_loop-score env settings input testing data_dir params props few configured active =
    let bonus = atol (or_empty (input (codes "BONUS"))) in
    let tests = tests_of (or_empty (input (codes "TESTS"))) in
    let r = round_of env settings input testing data_dir (length tests) in
    let s =
      start_state env settings (is_member (codes "SOLUTION_OUTPUT") props)
        (is_member (codes "CHECKER_OUTPUT") props) (pos 0) [] params in
    let t = run_tests r 0 tests s in
    let ts = outcomes env settings input testing data_dir in
    let start =
      start-IsClean env settings (is_member (codes "SOLUTION_OUTPUT") props)
        (is_member (codes "CHECKER_OUTPUT") props) params in
    let h : Reflects s ts t = start_state-Reflects r env settings tests _ _ params in
    let (points, errors) = close-score bonus s t ts start h in
    let (after, ended, kept) = finish-tests bonus t in
    (
      after,
      testing_main_loop-finish env settings input testing data_dir (pos 0) [] params props few
            configured
          ∙ ap (λ b. finish b bonus t) active
          ∙ ended
          ∙ ap (λ p. graded p (close bonus t).errors after) points
          ∙ ap (λ e. graded (score bonus ts) e after) errors,
      kept ∙ ap some (h.results ∙ ap (λ x. results_of x ts) start.2),
    )
