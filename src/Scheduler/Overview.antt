-- ===== src/Scheduler/Overview.antt =====
-- When `scheduler_overview` calls what.
use web_tester.Prelude.{
  ℕ, ◌-◌, ◌≡◌, refl, Bool, List, [], ◌∷◌, ltb, if◌then◌else◌, Bool-cases, inl, inr,
}
use web_tester.Time.{Timeval, IsTime, micros, check_time_delta-micros}
use web_tester.Scheduler.{Entry, overview}

-- More microseconds than its interval have passed since the entry was last called.
abbrev pub is_due : Timeval → Entry → Bool
is_due now e = ltb e.interval (micros now - micros e.last_call)

abbrev pub due : Timeval → List Entry → List Entry
due now [] = []
due now (e ∷ es) = if is_due now e then e ∷ due now es else due now es

abbrev pub renewed : Timeval → List Entry → List Entry
renewed now [] = []
renewed now (e ∷ es) = (if is_due now e then record e { last_call = now } else e) ∷ renewed now es

abbrev pub AreTimes : List Entry → Type 0
AreTimes [] = Unit
AreTimes (e ∷ es) = IsTime e.last_call × AreTimes es

module _ {S : Type 0} (call : ℕ → ℕ → S → S) where
  -- The effect of the calls, in order.
  abbrev pub run : List Entry → S → S
  run [] s = s
  run (e ∷ es) s = run es (call e.callback e.context s)

  -- `scheduler_overview` calls exactly the entries for which more microseconds than their interval
  -- have passed, each once, in the order of the list and with its own data; those entries are stamped
  -- with the current time, and the others stay.
  pub overview-due :
      (es : List Entry) (now : Timeval) (s : S)
      → AreTimes es
      → IsTime now
      → overview call es now s ≡ (renewed now es, run (due now es) s)
  unfolding overview
  overview-due [] now s ts t = refl
  overview-due (e ∷ es) now s ts t =
      let check = check_time_delta-micros e.last_call now e.interval ts.0 t in
      elim (Bool-cases (is_due now e)) [
        | inl d ↦ rw (check, d, overview-due es now (call e.callback e.context s) ts.1 t)
        | inr d ↦ rw (check, d, overview-due es now s ts.1 t)
      ]
