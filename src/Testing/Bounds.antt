-- ===== src/Testing/Bounds.antt =====
-- The range of the points that webtester/modules/informatics/tester.c gives.
use web_tester.Prelude.{
  ℕ, suc, ◌+◌, ◌≤◌, ◌≡◌, refl, ap, ◌∙◌, Bool, true, false, Option, none, some, List, [], ◌∷◌, ℤ,
  pos, negsuc, pos_part, Text, codes, is_nil, if◌then◌else◌, arith, Bool-cases, inl, inr, length,
}
use web_tester.Assarr.Pack.{atol}
use web_tester.Testing.Defs.{Params, or_empty, Env, Settings, add_ℤ}
use web_tester.Testing.Loop.{Round}
use web_tester.Testing.Judge.{Outcome, passed, failed, crashed, stopped, judge}
use web_tester.Testing.MainLoop.{tests_of, max_tests, graded, testing_main_loop, round_of}
use web_tester.Testing.Score.{ends, trail, points_of, has_crashed}
use web_tester.Testing.Verdict.{
  outcomes, score, verdict, failures, testing_main_loop-score, graded-same,
}

-- No test takes points away.
abbrev pub NonNegative : List ℤ → Type 0
NonNegative [] = Unit
NonNegative (pos n ∷ tests) = NonNegative tests
NonNegative (negsuc n ∷ tests) = ⊥

-- The points of all tests.
abbrev pub all_points : List ℤ → ℕ
all_points [] = 0
all_points (test ∷ tests) = pos_part test + all_points tests

abbrev pub AtMost : ℕ → ℤ → Type 0
AtMost bound p = (n : ℕ) × (p ≡ pos n) × (n ≤ bound)

AtMost-weaker : (a b : ℕ) (p : ℤ) → a ≤ b → AtMost a p → AtMost b p
AtMost-weaker a b p h (n, e, below) = (n, e, omega arith)

add_ℤ-pos : (a b : ℕ) → add_ℤ (pos a) (pos b) ≡ pos (a + b)
add_ℤ-pos a b = ground arith

points_of-AtMost :
    (tests : List ℤ) (r : Round) (i p : ℕ) (before : Option Text)
    → NonNegative tests
    → AtMost (p + all_points tests) (points_of (pos p) (trail r i before tests))
unfolding trail
points_of-AtMost [] r i p before h = (p, refl, omega arith)
points_of-AtMost (negsuc n ∷ tests) r i p before h = elim h [ ]
points_of-AtMost (pos n ∷ tests) r i p before h =
    by_outcome (judge r i before) (points_of-AtMost tests r (suc i) (p + n) none h)
      (points_of-AtMost tests r (suc i) p none h)
  where
    by_rules :
        (acm : Bool)
        → AtMost (p + all_points tests) (points_of (pos p) (trail r (suc i) none tests))
        → AtMost
            (p + (n + all_points tests))
            (points_of (pos p) (if acm then [] else trail r (suc i) none tests))
    by_rules true other = (p, refl, omega arith)
    by_rules false (m, e, below) = (m, e, omega arith)

    by_outcome :
        (o : Outcome)
        → AtMost (p + n + all_points tests) (points_of (pos (p + n)) (trail r (suc i) none tests))
        → AtMost (p + all_points tests) (points_of (pos p) (trail r (suc i) none tests))
        → AtMost (p + (n + all_points tests)) (
            points_of
              (pos p)
              ((pos n, o) ∷ (if ends r.acm o then [] else trail r (suc i) none tests)))
    by_outcome passed (m, e, below) other =
        (m, ap (λ x. points_of x (trail r (suc i) none tests)) (add_ℤ-pos p n) ∙ e, omega arith)
    by_outcome (failed kind) more other = by_rules r.acm other
    by_outcome crashed more other = (0, refl, omega arith)
    by_outcome stopped more other = (p, refl, omega arith)

score-AtMost :
    (ts : List (ℤ × Outcome)) (total b : ℕ)
    → AtMost total (points_of (pos 0) ts)
    → AtMost (total + b) (score (pos b) ts)
score-AtMost ts total b (n, e, below) = elim (Bool-cases (has_crashed ts)) [
  | inl c ↦ rw c (0, refl, omega arith)
  | inr c ↦ elim (Bool-cases (is_nil (failures ts))) [
    | inl clean ↦ rw (c, clean) (n + b, ap (λ x. add_ℤ x (pos b)) e ∙ add_ℤ-pos n b, omega arith)
    | inr failed_some ↦ rw (c, failed_some) (n, e, omega arith)
  ]
]

-- Where no test takes points away and the bonus is not negative, the points lie between 0 and the sum of
-- all tests' points and the bonus, so that an `int` holds them if it holds that sum.
pub testing_main_loop-bounded :
    (env : Env) (settings : Settings) (input : Params) (testing data_dir : Text) (params : Params)
    (props : List Text) (b : ℕ)
    → let tests = tests_of (or_empty (input (codes "TESTS"))) in
      length tests ≤ max_tests
      → settings.ret_props ≡ some props
      → env.stopped_after ≡ false
      → NonNegative tests
      → atol (or_empty (input (codes "BONUS"))) ≡ pos b
      → (points : ℕ) × (errors : Text) × (after : Params) × (testing_main_loop env settings input
            testing data_dir
            (pos 0)
            []
            params
          ≡ graded (pos points) errors after)
        × (points ≤ all_points tests + b)
testing_main_loop-bounded env settings input testing data_dir params props b few configured active
      nonneg bonus =
    let tests = tests_of (or_empty (input (codes "TESTS"))) in
    let ts = outcomes env settings input testing data_dir in
    let (after, e, results) =
      testing_main_loop-score env settings input testing data_dir params props few configured
        active in
    let (m, earned, below) =
      points_of-AtMost tests (round_of env settings input testing data_dir (length tests)) 0 0
        env.left_output nonneg in
    let (n, same, enough) = score-AtMost ts (0 + all_points tests) b (m, earned, below) in
    (
      n,
      verdict ts,
      after,
      e ∙ graded-same after (ap (λ x. score x ts) bonus ∙ same) refl,
      omega arith,
    )
