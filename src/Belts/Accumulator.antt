-- ===== src/Belts/Accumulator.antt =====
-- Results that could not be delivered, and the scheduler's registrations for them.
use web_tester.Prelude.{◌+◌, ◌≡◌, refl, false, none, List, [], ◌∷◌, arith, length}
use web_tester.Task.Defs.{Task}
use web_tester.Modules.{Services}
use web_tester.Belts.Defs.{Desk, accumulate, overview_tasks, accumulator_overview}

module _ {S : Type 0} (v : Services S) where
  -- Results that fail to be delivered, each of which is delivered at the next overview.
  abbrev pub outages : List Task → Desk S → Desk S
  outages [] d = d
  outages (t ∷ ts) d = outages ts (accumulator_overview v (accumulate t d))

  outage_step :
      (t : Task) (d : Desk S)
      → ((s : S) (t : Task) → (v.put_solution s t).0 ≡ false)
      → d.accumulator ≡ none
      → (let d' = accumulator_overview v (accumulate t d) in
          (d'.overviews ≡ d.overviews + 1) × (d'.accumulator ≡ none))
  unfolding accumulate accumulator_overview overview_tasks
  outage_step t d works e = rw (e, works d.ext t) (refl, refl)

  -- Once the web interface answers again, an overview empties the accumulator. Each time that happens
  -- the next failure registers `accumulator_overview_proc` once more, since nothing removes the earlier
  -- registrations: after `n` failures that are mended in turn there are `n` registrations more.
  outages-overviews :
      (ts : List Task) (d : Desk S)
      → ((s : S) (t : Task) → (v.put_solution s t).0 ≡ false)
      → d.accumulator ≡ none
      → ((outages ts d).overviews ≡ d.overviews + length ts) × ((outages ts d).accumulator ≡ none)
  outages-overviews [] d works e = (omega arith, e)
  outages-overviews (t ∷ ts) d works e =
      let step = outage_step t d works e in
      let rest = outages-overviews ts (accumulator_overview v (accumulate t d)) works step.1 in
      (omega (arith, rest.0, step.0), rest.1)
