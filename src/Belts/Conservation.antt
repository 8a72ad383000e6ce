-- ===== src/Belts/Conservation.antt =====
-- No operation of the belts loses or doubles a task: what a task list loses, the belts, the
-- accumulator or the record of tasks that left has gained.
use web_tester.Prelude.{
  ℕ, ◌+◌, ◌-◌, ◌≡◌, refl, true, false, not, ◌&&◌, ◌||◌, Option, none, some, List, [], ◌∷◌, arith,
  length, leb, ltb, is_nil, if◌then◌else◌, Bool-cases, Option-cases, inl, inr,
}
use web_tester.Task.Defs.{Task, free_buffer_locked}
use web_tester.Modules.{TestModule, Services}
use web_tester.Belts.Defs.{
  Fate, delivered, Desk, is_finished, is_interrupted, in_belts, accumulate, chain_loop,
  return_tested, restore, overview_finished, overview_task, keep, overview_status, send_for_testing,
  Filling, fill_task, fill_loop, fill, overview_tasks, accumulator_overview, Server, is_idle, work,
  belts_update,
}
use web_tester.Belts.Identity.{
  free_buffer-SameId, chain_loop-SameId, send_for_testing-SameId, mark, mark-SameId, tally,
  tally_gone, tally_kept, tally-append,
}

-- The tasks of the identity of `k` that the accumulator holds or that left.
abbrev pub held : {S : Type 0} → Task → Desk S → ℕ
held k d = tally_kept k d.accumulator + tally_gone k d.gone

-- The tasks of that identity that the server has, or had and that left.
abbrev pub total : {S : Type 0} → Task → Server S → ℕ
total k b = tally k b.queue + tally k b.belts + held k b.desk

abbrev pub tally_left : Task → Option Task → ℕ
tally_left k none = 0
tally_left k (some t) = mark k t

pub accumulate-held :
    {S : Type 0} (k t : Task) (d : Desk S) → held k (accumulate t d) ≡ mark k t + held k d
unfolding accumulate
accumulate-held k t d = elim (Option-cases d.accumulator) [
  | inl e ↦ ground (arith, e)
  | inr (ts, e) ↦ ground (arith, e, tally-append k ts (t ∷ []))
]

module _ {S : Type 0} (v : Services S) (modules : List TestModule) (k : Task) where
  return_tested-held :
      (t : Task) (d : Desk S) → held k (return_tested v modules t d) ≡ mark k t + held k d
  unfolding return_tested
  return_tested-held t d =
      let (failed, s) = v.put_solution d.ext t in
      elim (Bool-cases failed) [
        | inl e ↦ rw e (accumulate-held k t (record d { ext = s }))
        | inr e ↦ rw e (omega arith)
      ]

  restore-held : (t : Task) (d : Desk S) → held k (restore v modules t d) ≡ mark k t + held k d
  unfolding restore
  restore-held t d = omega arith

  overview_finished-held :
      (t : Task) (d : Desk S)
      → (let r = overview_finished v modules t d in tally_left k r.0 + held k r.1)
        ≡ mark k t + held k d
  unfolding overview_finished
  overview_finished-held t d =
      let rounds = length t.chain - t.cur in
      let (need_return, t', s) = chain_loop v modules rounds t d.ext in
      let same = mark-SameId k t t' (chain_loop-SameId v modules rounds t d.ext) in
      elim (Bool-cases need_return) [
        | inl e ↦ rw e (omega (arith, same, return_tested-held t' (record d { ext = s })))
        | inr e ↦ rw e (omega (arith, same))
      ]

  overview_task-held :
      (t : Task) (d : Desk S)
      → (let r = overview_task v modules t d in tally_left k r.0 + held k r.1) ≡ mark k t + held k d
  unfolding overview_task
  overview_task-held t d =
      let t' = if not (is_nil t.pipe) then free_buffer_locked t else t in
      let same : mark k t' ≡ mark k t = elim (Bool-cases (not (is_nil t.pipe))) [
        | inl e ↦ rw e (mark-SameId k t (free_buffer_locked t) (free_buffer-SameId t))
        | inr e ↦ rw e
      ] in
      elim (Bool-cases (is_finished t'.status)) [
        | inl e ↦ rw e (omega (arith, same, overview_finished-held t' d))
        | inr e ↦ elim (Bool-cases (is_interrupted t'.status)) [
          | inl i ↦ rw (e, i) (omega (arith, same, restore-held t' d))
          | inr i ↦ rw (e, i) (omega (arith, same))
        ]
      ]

  keep-tally :
      (o : Option Task) (ts : List Task) → tally k (keep o ts) ≡ tally_left k o + tally k ts
  keep-tally none ts = omega arith
  keep-tally (some t) ts = refl

  pub overview_status-held :
      (ts : List Task) (d : Desk S)
      → (let r = overview_status v modules ts d in tally k r.0 + held k r.1) ≡ tally k ts + held k d
  unfolding overview_status
  overview_status-held [] d = refl
  overview_status-held (t ∷ ts) d =
      let (left, d1, c1) = overview_task v modules t d in
      omega (
        arith,
        keep-tally left (overview_status v modules ts d1).0,
        overview_task-held t d,
        overview_status-held ts d1,
      )

  abbrev tally_filling : Filling S → ℕ
  tally_filling f = tally k f.waiting + tally k f.belts + held k f.desk

  fill_task-held :
      (t : Task) (f : Filling S)
      → tally_filling (fill_task v modules t f) ≡ mark k t + tally_filling f
  unfolding fill_task
  fill_task-held t f =
      let r = send_for_testing v modules t f.desk.ext in
      let d = record (f.desk) { ext = r.ext } in
      let same = mark-SameId k t r.task (send_for_testing-SameId v modules t f.desk.ext) in
      elim (Bool-cases (in_belts t f.belts)) [
        | inl e ↦ rw e (omega arith)
        | inr e ↦ elim (Bool-cases (not r.failed)) [
          | inl sent ↦ rw (e, sent) (omega (arith, same, tally-append k f.belts (r.task ∷ [])))
          | inr unsent ↦ elim (Bool-cases (not r.task.keep_in_queue)) [
            | inl b ↦ rw (e, unsent, b) (omega (arith, same, restore-held r.task d))
            | inr b ↦ rw (e, unsent, b) (omega (arith, same))
          ]
        ]
      ]

  fill_loop-held :
      (size : ℕ) (ts : List Task) (f : Filling S)
      → (let r = fill_loop v modules size ts f in tally k r.0 + tally_filling r.1)
        ≡ tally k ts + tally_filling f
  unfolding fill_loop
  fill_loop-held size [] f = refl
  fill_loop-held size (t ∷ ts) f = elim (Bool-cases (leb size (length f.belts))) [
    | inl e ↦ rw e
    | inr e ↦
        rw e (omega (arith, fill_loop-held size ts (fill_task v modules t f), fill_task-held t f))
  ]

  pub fill-held :
      (size : ℕ) (queue belts : List Task) (d : Desk S)
      → (let r = fill v modules size queue belts d in tally k r.0 + tally k r.1 + held k r.2)
        ≡ tally k queue + tally k belts + held k d
  unfolding fill
  fill-held size queue belts d =
      let f : Filling S = record { waiting = []; belts = belts; desk = d } in
      let r = fill_loop v modules size queue f in
      omega (arith, fill_loop-held size queue f, tally-append k r.1.waiting r.0)

  work-total : (b : Server S) → total k (work v modules b) ≡ total k b
  unfolding work
  work-total b =
      let (belts1, d1, c1) = overview_status v modules b.belts b.desk in
      elim (Bool-cases
        (not (is_nil b.belts) || (not (is_nil b.queue) && ltb (length b.belts) b.size))) [
          | inl e ↦ rw e (
              omega
                (arith, overview_status-held b.belts b.desk, fill-held b.size b.queue belts1 d1))
          | inr e ↦ rw e
        ]

  -- `wt_belts_update` keeps the number of tasks of every identity that wait, are tested, could not be
  -- delivered yet, or have left: it loses no task and doubles none.
  pub belts_update-total : (b : Server S) → total k (belts_update v modules b) ≡ total k b
  unfolding belts_update
  belts_update-total b =
      let awake : Server S = record b { waiting = false; update = true; state_changed = false } in
      elim (Bool-cases (not b.active)) [
        | inl e ↦ rw e
        | inr e ↦ elim (Bool-cases (is_idle b)) [
          | inl i ↦ elim (Bool-cases b.update) [ inl w ↦ rw (e, i, w) | inr w ↦ rw (e, i, w) ]
          | inr i ↦ rw (e, i) (work-total awake)
        ]
      ]

module _ {S : Type 0} (v : Services S) (k : Task) where
  overview_tasks-tally :
      (ts : List Task) (gone : List (Fate × Task)) (s : S)
      → (let r = overview_tasks v ts gone s in tally k r.0 + tally_gone k r.1)
        ≡ tally k ts + tally_gone k gone
  unfolding overview_tasks
  overview_tasks-tally [] gone s = refl
  overview_tasks-tally (t ∷ ts) gone s =
      let (failed, s1) = v.put_solution s t in
      elim (Bool-cases failed) [
        | inl e ↦ rw e (omega (arith, overview_tasks-tally ts gone s1))
        | inr e ↦ rw e (omega (arith, overview_tasks-tally ts ((delivered, t) ∷ gone) s1))
      ]

  tally_nil : (ts : List Task) → tally_kept k (if is_nil ts then none else some ts) ≡ tally k ts
  tally_nil [] = refl
  tally_nil (t ∷ ts) = refl

  -- `accumulator_overview_proc` keeps the number of tasks of every identity that the accumulator
  -- holds or that left.
  pub accumulator_overview-held : (d : Desk S) → held k (accumulator_overview v d) ≡ held k d
  unfolding accumulator_overview
  accumulator_overview-held d = elim (Option-cases d.accumulator) [
    | inl e ↦ rw e
    | inr (ts, e) ↦
        let (left, gone, s) = overview_tasks v ts d.gone d.ext in
        rw e (omega (arith, tally_nil left, overview_tasks-tally ts d.gone d.ext))
  ]
