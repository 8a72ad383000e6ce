-- ===== src/Testing/Refines.antt =====
-- The loop of webtester/modules/informatics/tester.c computes the score of its tests' outcomes.
use web_tester.Prelude.{
  ℕ, suc, ◌≡◌, refl, ap, ◌∙◌, sym, subst, Bool, false, ◌||◌, none, List, [], ◌∷◌, ℤ, Text, codes,
  if◌then◌else◌, arith,
}
use web_tester.Testing.Defs.{push_string}
use web_tester.Testing.State.{Kind, re, ml, tl, wa, pe, kind_name, Loop, Went, goes, leaves}
use web_tester.Testing.Loop.{Round, run_tests}
use web_tester.Testing.Judge.{
  Outcome, passed, failed, crashed, stopped, core, noted_pass, noted_failure, noted_crash, Judged,
  is_pass, is_failure, is_last, is_crash, is_stop, run_test-Judged,
}
use web_tester.Testing.Score.{
  ends, trail, points_of, has_crashed, has_failed, same_kind, results_of, flag, Reflects,
}

abbrev reached : Went → Loop
reached (goes t) = t
reached (leaves t) = t

flag-core : (k : Kind) (s t : Loop) → core s ≡ core t → flag k s ≡ flag k t
flag-core re s t e = ap (λ (x : Loop). x.has_re) e
flag-core ml s t e = ap (λ (x : Loop). x.has_ml) e
flag-core tl s t e = ap (λ (x : Loop). x.has_tl) e
flag-core wa s t e = ap (λ (x : Loop). x.has_wa) e
flag-core pe s t e = ap (λ (x : Loop). x.has_pe) e

flag-noted_failure :
    (k kind : Kind) (s : Loop)
    → flag k (noted_failure kind s) ≡ (flag k s || (same_kind k kind || false))
flag-noted_failure k kind s = ground arith

flag-noted_pass :
    (k : Kind) (test : ℤ) (s : Loop) → flag k (noted_pass test s) ≡ (flag k s || false)
flag-noted_pass k test s = ground arith

flag-noted_crash : (k : Kind) (s : Loop) → flag k (noted_crash s) ≡ (flag k s || false)
flag-noted_crash k s = ground arith

-- A failure changes the results and its flag only.
noted_failure-same :
    (kind : Kind) (s : Loop)
    → (core (noted_failure kind s)).points ≡ s.points
      × ((core (noted_failure kind s)).errors ≡ s.errors)
      × ((core (noted_failure kind s)).tests_res
          ≡ push_string (kind_name kind) (codes " ") s.tests_res)
      × ((core (noted_failure kind s)).has_cr ≡ (s.has_cr || false))
noted_failure-same kind s = ground arith

failure-Reflects :
    (test : ℤ) (kind : Kind) (s t : Loop)
    → core t ≡ core (noted_failure kind s)
    → Reflects s ((test, failed kind) ∷ []) t
unfolding results_of
failure-Reflects test kind s t e =
    let (points, errors, results, crash) = noted_failure-same kind s in
    record {
      points = ap (λ (x : Loop). x.points) e ∙ points;
      errors = ap (λ (x : Loop). x.errors) e ∙ errors;
      results = ap (λ (x : Loop). x.tests_res) e ∙ results;
      flags = λ k. flag-core k t (noted_failure kind s) e ∙ flag-noted_failure k kind s;
      crash = ap (λ (x : Loop). x.has_cr) e ∙ crash;
    }

or_false-same : (b : Bool) → b ≡ (b || false)
or_false-same b = ground arith

-- The variables after one round are those of its outcome alone.
Judged-Reflects :
    {acm : Bool} {test : ℤ} {s : Loop} {o : Outcome} {w : Went}
    → Judged acm test s o w
    → Reflects s ((test, o) ∷ []) (reached w)
unfolding results_of
Judged-Reflects {test = test} {s = s} (is_pass t out e) = record {
  points = ap (λ (x : Loop). x.points) e;
  errors = ap (λ (x : Loop). x.errors) e;
  results = ap (λ (x : Loop). x.tests_res) e;
  flags = λ k. flag-core k t (noted_pass test s) e ∙ flag-noted_pass k test s;
  crash = ap (λ (x : Loop). x.has_cr) e ∙ or_false-same s.has_cr;
}
Judged-Reflects {test = test} {s = s} (is_failure kind t a out e) = failure-Reflects test kind s t e
Judged-Reflects {test = test} {s = s} (is_last kind t a e) = failure-Reflects test kind s t e
Judged-Reflects {test = test} {s = s} (is_crash t e) = record {
  points = ap (λ (x : Loop). x.points) e;
  errors = ap (λ (x : Loop). x.errors) e;
  results = ap (λ (x : Loop). x.tests_res) e;
  flags = λ k. flag-core k t (noted_crash s) e ∙ flag-noted_crash k s;
  crash = ap (λ (x : Loop). x.has_cr) e ∙ ground arith;
}
Judged-Reflects {test = test} {s = s} (is_stop t e) = record {
  points = ap (λ (x : Loop). x.points) e;
  errors = ap (λ (x : Loop). x.errors) e;
  results = ap (λ (x : Loop). x.tests_res) e;
  flags = λ k. flag-core k t s e ∙ or_false-same (flag k s);
  crash = ap (λ (x : Loop). x.has_cr) e ∙ or_false-same s.has_cr;
}

-- The outcomes after which the loop can go on.
abbrev GoesOn : Outcome → Type 0
GoesOn passed = Unit
GoesOn (failed kind) = Unit
GoesOn crashed = ⊥
GoesOn stopped = ⊥

points_of-cons :
    (p test : ℤ) (o : Outcome) (rest : List (ℤ × Outcome))
    → GoesOn o
    → points_of (points_of p ((test, o) ∷ [])) rest ≡ points_of p ((test, o) ∷ rest)
points_of-cons p test passed rest g = refl
points_of-cons p test (failed kind) rest g = refl
points_of-cons p test crashed rest g = elim g [ ]
points_of-cons p test stopped rest g = elim g [ ]

results_of-cons :
    (text : Text) (test : ℤ) (o : Outcome) (rest : List (ℤ × Outcome))
    → GoesOn o
    → results_of (results_of text ((test, o) ∷ [])) rest ≡ results_of text ((test, o) ∷ rest)
unfolding results_of
results_of-cons text test passed rest g = refl
results_of-cons text test (failed kind) rest g = refl
results_of-cons text test crashed rest g = elim g [ ]
results_of-cons text test stopped rest g = elim g [ ]

has_crashed-cons :
    (test : ℤ) (o : Outcome) (rest : List (ℤ × Outcome))
    → GoesOn o
    → (has_crashed ((test, o) ∷ []) ≡ false) × (has_crashed ((test, o) ∷ rest) ≡ has_crashed rest)
has_crashed-cons test passed rest g = (refl, refl)
has_crashed-cons test (failed kind) rest g = (refl, refl)
has_crashed-cons test crashed rest g = elim g [ ]
has_crashed-cons test stopped rest g = elim g [ ]

has_failed-cons :
    (k : Kind) (test : ℤ) (o : Outcome) (rest : List (ℤ × Outcome))
    → has_failed k ((test, o) ∷ rest) ≡ (has_failed k ((test, o) ∷ []) || has_failed k rest)
has_failed-cons k test o rest = ground arith

Reflects-cons :
    (test : ℤ) (o : Outcome) (rest : List (ℤ × Outcome)) (s t u : Loop)
    → GoesOn o
    → Reflects s ((test, o) ∷ []) t
    → Reflects t rest u
    → Reflects s ((test, o) ∷ rest) u
Reflects-cons test o rest s t u g first more =
    let (safe, crash) = has_crashed-cons test o rest g in
    record {
      points =
          more.points
          ∙ ap (λ p. points_of p rest) first.points
          ∙ points_of-cons s.points test o rest g;
      errors = ground (arith, more.errors, first.errors, safe, crash);
      results =
          more.results
          ∙ ap (λ x. results_of x rest) first.results
          ∙ results_of-cons s.tests_res test o rest g;
      flags = λ k. ground (arith, more.flags k, first.flags k, has_failed-cons k test o rest);
      crash = ground (arith, more.crash, first.crash, safe, crash);
    }

abbrev went_on : Round → ℕ → List ℤ → Went → Loop
went_on r i tests w = elim w [ goes t ↦ run_tests r (suc i) tests t | leaves t ↦ t ]

abbrev unless : Bool → List (ℤ × Outcome) → List (ℤ × Outcome)
unless b rest = if b then [] else rest

abbrev after : Round → ℕ → ℤ → Outcome → List ℤ → List (ℤ × Outcome)
after r i test o tests = (test, o) ∷ unless (ends r.acm o) (trail r (suc i) none tests)

-- The next test starts without an output file.
fresh :
    (r : Round) (i : ℕ) (tests : List ℤ) (t : Loop)
    → t.output ≡ none
    → Reflects t (trail r (suc i) t.output tests) (run_tests r (suc i) tests t)
    → Reflects t (trail r (suc i) none tests) (run_tests r (suc i) tests t)
fresh r i tests t out h =
    subst (λ o. Reflects t (trail r (suc i) o tests) (run_tests r (suc i) tests t)) out h

-- The loop notes the outcomes of the tests that are run, one after the other.
pub run_tests-Reflects :
    (r : Round) (i : ℕ) (tests : List ℤ) (s : Loop)
    → Reflects s (trail r i s.output tests) (run_tests r i tests s)
unfolding run_tests trail results_of
run_tests-Reflects r i [] s = record {
  points = refl;
  errors = refl;
  results = refl;
  flags = λ k. or_false-same (flag k s);
  crash = or_false-same s.has_cr;
}
run_tests-Reflects r i (test ∷ tests) s =
    elim (run_test-Judged r i test s)
      as (λ o w j. Reflects s (after r i test o tests) (went_on r i tests w)) [
        | is_pass t out e ↦
            Reflects-cons test passed _ s t _ tt (Judged-Reflects {acm = r.acm} (is_pass t out e))
              (fresh r i tests t out (run_tests-Reflects r (suc i) tests t))
        | is_failure kind t a out e ↦
            subst
              (λ b.
                Reflects s ((test, failed kind) ∷ unless b (trail r (suc i) none tests))
                  (run_tests r (suc i) tests t))
              (sym a)
              (Reflects-cons test (failed kind) _ s t _ tt (failure-Reflects test kind s t e)
                (fresh r i tests t out (run_tests-Reflects r (suc i) tests t)))
        | is_last kind t a e ↦
            subst (λ b. Reflects s ((test, failed kind) ∷ unless b (trail r (suc i) none tests)) t)
              (sym a) (failure-Reflects test kind s t e)
        | is_crash t e ↦ Judged-Reflects {acm = r.acm} (is_crash t e)
        | is_stop t e ↦ Judged-Reflects {acm = r.acm} (is_stop t e)
      ]
