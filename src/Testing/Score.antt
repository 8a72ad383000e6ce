-- ===== src/Testing/Score.antt =====
-- The score that the outcomes of the tests come to, and that the loop of
-- webtester/modules/informatics/tester.c computes it.
use web_tester.Prelude.{
  ℕ, suc, ◌≡◌, Bool, true, false, ◌||◌, Option, none, List, [], ◌∷◌, ℤ, pos, Text, codes,
  if◌then◌else◌,
}
use web_tester.Testing.Defs.{push_string, add_ℤ}
use web_tester.Testing.State.{Kind, re, ml, tl, wa, pe, kind_name, Loop}
use web_tester.Testing.Loop.{Round}
use web_tester.Testing.Judge.{Outcome, passed, failed, crashed, stopped, judge}

-- The rounds that end the loop.
abbrev pub ends : Bool → Outcome → Bool
ends acm passed = false
ends acm (failed kind) = acm
ends acm crashed = true
ends acm stopped = true

-- The outcomes of the tests that are run, each with the points of its test: from the second one on there
-- is no output file of the test before.
unfoldable pub trail : Round → ℕ → Option Text → List ℤ → List (ℤ × Outcome)
unfolding judge
trail r i before [] = []
trail r i before (test ∷ tests) =
    let rest = trail r (suc i) none tests in
    (test, judge r i before) ∷ (if ends r.acm (judge r i before) then [] else rest)

-- The sum of the points of the tests that are passed, from `p` on; nothing is left after a crash.
abbrev pub points_of : ℤ → List (ℤ × Outcome) → ℤ
points_of p [] = p
points_of p ((test, passed) ∷ ts) = points_of (add_ℤ p test) ts
points_of p ((test, failed kind) ∷ ts) = points_of p ts
points_of p ((test, crashed) ∷ ts) = pos 0
points_of p ((test, stopped) ∷ ts) = points_of p ts

abbrev pub has_crashed : List (ℤ × Outcome) → Bool
has_crashed [] = false
has_crashed ((test, crashed) ∷ ts) = true
has_crashed ((test, passed) ∷ ts) = has_crashed ts
has_crashed ((test, failed kind) ∷ ts) = has_crashed ts
has_crashed ((test, stopped) ∷ ts) = has_crashed ts

abbrev pub same_kind : Kind → Kind → Bool
same_kind re re = true
same_kind ml ml = true
same_kind tl tl = true
same_kind wa wa = true
same_kind pe pe = true
same_kind _ _ = false

abbrev pub has_failed : Kind → List (ℤ × Outcome) → Bool
has_failed k [] = false
has_failed k ((test, failed kind) ∷ ts) = same_kind k kind || has_failed k ts
has_failed k ((test, passed) ∷ ts) = has_failed k ts
has_failed k ((test, crashed) ∷ ts) = has_failed k ts
has_failed k ((test, stopped) ∷ ts) = has_failed k ts

-- The names of the outcomes, after those in `text`.
unfoldable pub results_of : Text → List (ℤ × Outcome) → Text
unfolding push_string
results_of text [] = text
results_of text ((test, passed) ∷ ts) = results_of (push_string (codes "OK") (codes " ") text) ts
results_of text ((test, failed kind) ∷ ts) =
    results_of (push_string (kind_name kind) (codes " ") text) ts
results_of text ((test, crashed) ∷ ts) = results_of text ts
results_of text ((test, stopped) ∷ ts) = results_of text ts

abbrev pub flag : Kind → Loop → Bool
flag re s = s.has_re
flag ml s = s.has_ml
flag tl s = s.has_tl
flag wa s = s.has_wa
flag pe s = s.has_pe

-- The variables `t` after the tests of the trail, from `s` on.
pub record Reflects (s : Loop) (ts : List (ℤ × Outcome)) (t : Loop) : Type 0 where
  pub points : t.points ≡ points_of s.points ts
  pub errors : t.errors ≡ (if has_crashed ts then codes "CR" else s.errors)
  pub results : t.tests_res ≡ results_of s.tests_res ts
  pub flags : (k : Kind) → flag k t ≡ (flag k s || has_failed k ts)
  pub crash : t.has_cr ≡ (s.has_cr || has_crashed ts)
