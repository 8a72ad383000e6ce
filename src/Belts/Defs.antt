-- ===== src/Belts/Defs.antt =====
-- The state and the operations of webtester/belts.c.
--
-- The queue, the belts and the accumulator are lists of tasks; `Dyna` has their operations
-- on cells. The functions read `dyna_next` of the current item, for
-- `belts_fill` after it was freed (`Advance.advance`); the lists are walked as if it still held its
-- pointer. `wt_get_task` goes to the web interface, which sets the flag for an unpacked task when it has
-- got the task. Messages to the log and to the console are left out.
use web_tester.Prelude.{
  ℕ, zero, suc, ◌+◌, ◌-◌, Bool, true, false, not, ◌&&◌, ◌||◌, Option, none, some, List, [], ◌∷◌,
  ◌++◌, ℤ, pos, Text, codes, is_nil, length, leb, ltb, if◌then◌else◌,
}
use web_tester.Task.Defs.{
  Status, finished, interrupted, Task, same_task, is_chain_empty, free_buffer_locked,
}
use web_tester.Modules.{TestModule, Services, Sent, module_send_for_testing}

-- How a task left the server: its result was delivered, its test was given back to the web
-- interface, or it was dropped as a duplicate.
pub data Fate : Type 0 where
  delivered restored duplicate : Fate

-- The tasks that are tested and could not be delivered, the registrations of
-- `accumulator_overview_proc` with the scheduler, how tasks left (the latest first), and the state of
-- the loaded code.
pub record Desk (S : Type 0) : Type 0 where
  pub accumulator : Option (List Task)
  pub overviews : ℕ
  pub gone : List (Fate × Task)
  pub ext : S

-- `lid[i]` of the chain
abbrev pub chain_lid : List ℤ → ℕ → ℤ
chain_lid [] i = pos 0
chain_lid (x ∷ xs) zero = x
chain_lid (x ∷ xs) (suc i) = chain_lid xs i

abbrev pub is_finished : Status → Bool
is_finished finished = true
is_finished _ = false

abbrev pub is_interrupted : Status → Bool
is_interrupted interrupted = true
is_interrupted _ = false

-- `wt_task_in_belts`
unfoldable pub in_belts : Task → List Task → Bool
in_belts t [] = false
in_belts t (x ∷ xs) = same_task x t || in_belts t xs

-- A text that was written to the task's pipe.
abbrev pub with_pipe : Task → Option Text → Task
with_pipe t none = t
with_pipe t (some e) = record t { pipe = e }

-- `accumulate_solution`
unfoldable pub accumulate : {S : Type 0} → Task → Desk S → Desk S
accumulate t d = elim d.accumulator [
  | none ↦ record d { accumulator = some (t ∷ []); overviews = d.overviews + 1 }
  | some ts ↦ record d { accumulator = some (ts ++ t ∷ []) }
]

-- `--task->chain_testing.cur`
unfoldable pub step_back : Task → Task
step_back t = record t { cur = t.cur - 1 }

-- The belts after a round: a task that stays, before the others.
abbrev pub keep : Option Task → List Task → List Task
keep none ts = ts
keep (some t) ts = t ∷ ts

-- What `belts_fill` works on: the tasks that it pushed back to the front of the queue, the latest
-- first, the belts, and the rest.
pub record Filling (S : Type 0) : Type 0 where
  pub waiting : List Task
  pub belts : List Task
  pub desk : Desk S

module _ {S : Type 0} (v : Services S) (modules : List TestModule) where
  -- `send_to_chain`, whose error text goes to the task's own pipe: `belts_overview_status` passes
  -- `pchar`, which points there
  unfoldable pub send_to_chain : Task → S → Sent S
  send_to_chain t s =
      let r =
        module_send_for_testing v modules
          (record t {
            cur_lid = chain_lid t.chain t.cur;
            started = true;
            cur = t.cur + 1;
            message = [];
          })
          s in
      record r { task = with_pipe r.task r.error }

  -- The loop of `belts_overview_status` over the chain: whether the task needs to be returned, the
  -- task, and the state of the loaded code. It has a round for each library left in the chain.
  unfoldable pub chain_loop : ℕ → Task → S → Bool × Task × S
  chain_loop zero t s = (true, t, s)
  chain_loop (suc k) t s =
      if is_chain_empty t
      then (true, t, s)
      else let r = send_to_chain t s in
        let again = chain_loop k r.task r.ext in
        if not r.failed
        then (false, r.task, r.ext)
        else if r.task.keep_in_queue
        then (false, step_back r.task, r.ext)
        else again

  -- `return_tested`, and how the task leaves: it is freed, or kept by the accumulator
  unfoldable pub return_tested : Task → Desk S → Desk S
  return_tested t d =
      let (failed, s) = v.put_solution d.ext t in
      if failed
      then accumulate t (record d { ext = s })
      else record d { gone = (delivered, t) ∷ d.gone; ext = s }

  -- `wt_task_deleter_with_restore`
  unfoldable pub restore : Task → Desk S → Desk S
  restore t d = record d { gone = (restored, t) ∷ d.gone; ext = v.restore_task d.ext t }

  -- One round of `belts_overview_status` for a finished task: the task, if it stays in the belts.
  unfoldable pub overview_finished : Task → Desk S → Option Task × Desk S
  overview_finished t d =
      let (need_return, t', s) = chain_loop (length t.chain - t.cur) t d.ext in
      if need_return
      then (none, return_tested t' (record d { ext = s }))
      else (some t', record d { ext = s })

  -- One round: the task, if it stays, and whether the state changed.
  unfoldable pub overview_task : Task → Desk S → Option Task × Desk S × Bool
  overview_task t d =
      let changed = not (is_nil t.pipe) in
      let t' = if changed then free_buffer_locked t else t in
      if is_finished t'.status
      then (let (left, d') = overview_finished t' d in (left, d', true))
      else if is_interrupted t'.status
      then (none, restore t' d, true)
      else (some t', d, changed)

  -- `belts_overview_status`
  unfoldable pub overview_status : List Task → Desk S → List Task × Desk S × Bool
  overview_status [] d = ([], d, false)
  overview_status (t ∷ ts) d =
      let (left, d1, c1) = overview_task t d in
      let (rest, d2, c2) = overview_status ts d1 in (keep left rest, d2, c1 || c2)

  -- `send_for_testing`; an error text is always written when it fails, here or by the module
  unfoldable pub send_for_testing : Task → S → Sent S
  send_for_testing t s =
      let t' = record t { keep_in_queue = false } in
      let (failed, s') = v.get_task s t' in
      if failed
      then record {
        failed = true;
        error = some (codes "Could not get task's parameters");
        task = t';
        ext = s';
      }
      else module_send_for_testing v modules (record t' { unpacked = true }) s'

  -- One round of `belts_fill` with the task `t`, which has left the queue.
  unfoldable pub fill_task : Task → Filling S → Filling S
  fill_task t f =
      if in_belts t f.belts
      then record f { desk = record (f.desk) { gone = (duplicate, t) ∷ f.desk.gone } }
      else let r = send_for_testing t f.desk.ext in
        let d = record (f.desk) { ext = r.ext } in
        if not r.failed
        then record f { belts = f.belts ++ r.task ∷ []; desk = d }
        else if not r.task.keep_in_queue
        then record f { desk = restore r.task d }
        else record f { waiting = r.task ∷ f.waiting; desk = d }

  -- `belts_fill`, past the items `f.waiting` that were pushed back to the front of the queue. It
  -- returns the queue, the belts and the rest, and whether there was a round.
  unfoldable pub fill_loop : ℕ → List Task → Filling S → List Task × Filling S
  fill_loop size [] f = ([], f)
  fill_loop size (t ∷ ts) f =
      let rest = fill_loop size ts (fill_task t f) in
      if leb size (length f.belts) then (t ∷ ts, f) else rest

  -- `belts_fill` at a queue and belts: the queue, the belts, the rest, and whether the state changed.
  unfoldable pub fill : ℕ → List Task → List Task → Desk S → List Task × List Task × Desk S × Bool
  fill size queue belts d =
      let (left, f) = fill_loop size queue (record { waiting = []; belts = belts; desk = d }) in
      (f.waiting ++ left, f.belts, f.desk, not (is_nil queue) && ltb (length belts) size)

-- `accumulator_overview_proc`: every task of the accumulator that can be delivered now leaves it, and
-- an empty accumulator is destroyed. The registration with the scheduler stays.
module _ {S : Type 0} (v : Services S) where
  unfoldable pub overview_tasks :
      List Task → List (Fate × Task) → S → List Task × List (Fate × Task) × S
  overview_tasks [] gone s = ([], gone, s)
  overview_tasks (t ∷ ts) gone s =
      let (failed, s1) = v.put_solution s t in
      let (left, gone', s2) =
        overview_tasks ts (if failed then gone else (delivered, t) ∷ gone) s1 in
      (if failed then t ∷ left else left, gone', s2)

  unfoldable pub accumulator_overview : Desk S → Desk S
  accumulator_overview d = elim d.accumulator [
    | none ↦ d
    | some ts ↦
        let (left, gone, s) = overview_tasks ts d.gone d.ext in
        record d { accumulator = if is_nil left then none else some left; gone = gone; ext = s }
  ]

-- The globals of belts.c, `waiting` and `update` of `wt_belts_update`, the queue, and the statistics
-- that it sets.
pub record Server (S : Type 0) : Type 0 where
  pub size : ℕ
  pub queue : List Task
  pub belts : List Task
  pub desk : Desk S
  pub active : Bool
  pub state_changed : Bool
  pub waiting : Bool
  pub update : Bool
  pub belts_usage : ℕ
  pub queue_usage : ℕ

-- `wt_belts_start`, `wt_belts_stop`, `wt_belts_status_changed`
unfoldable pub start : {S : Type 0} → Server S → Server S
start b = record b { active = true }

unfoldable pub stop : {S : Type 0} → Server S → Server S
stop b = record b { active = false }

unfoldable pub status_changed : {S : Type 0} → Server S → Server S
status_changed b = record b { state_changed = true }

-- The test by which `wt_belts_update` goes on waiting.
unfoldable pub is_idle : {S : Type 0} → Server S → Bool
is_idle b = not b.state_changed && (is_nil b.queue || leb b.size (length b.belts))

abbrev with_usage : {S : Type 0} → Server S → Server S
with_usage b = record b { belts_usage = length b.belts; queue_usage = length b.queue }

module _ {S : Type 0} (v : Services S) (modules : List TestModule) where
  -- The overview and the filling, under the test that precedes them.
  unfoldable pub work : Server S → Server S
  work b =
      if not (is_nil b.belts) || (not (is_nil b.queue) && ltb (length b.belts) b.size)
      then (let (belts1, d1, c1) = overview_status v modules b.belts b.desk in
          let (queue2, belts2, d2, c2) = fill v modules b.size b.queue belts1 d1 in
          record b { queue = queue2; belts = belts2; desk = d2 })
      else b

  -- `wt_belts_update`
  unfoldable pub belts_update : Server S → Server S
  belts_update b =
      if not b.active
      then b
      else if is_idle b
      then record (if b.update then with_usage b else b) { waiting = true; update = false }
      else with_usage (work (record b { waiting = false; update = true; state_changed = false }))
