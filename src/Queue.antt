-- ===== src/Queue.antt =====
-- webtester/queue.c: the queue of tasks before the belts.
--
-- The list itself is the `queue` of the server, which the belts take tasks from. `wt_get_task_list` is
-- code of the web interface, a parameter; messages are left out.
pub mod Unpack
mod Examples
use web_tester.Prelude.{
  ℕ, zero, suc, ◌-◌, Bool, true, false, not, ◌||◌, List, [], ◌∷◌, ℤ, pos, length, ◌==◌,
  if◌then◌else◌,
}
use web_tester.Task.Defs.{Task}
use web_tester.Modules.{TestModule, Services}
use web_tester.Belts.Defs.{Desk, restore, Server}

-- The globals of queue.c, with the `update` of `wt_queue_update`.
pub record Queue (S : Type 0) : Type 0 where
  pub server : Server S
  pub queue_size : ℕ
  pub unpack_count : ℕ
  pub active : Bool
  pub update : Bool

-- `wt_queue_start`, `wt_queue_stop`
unfoldable pub queue_start : {S : Type 0} → Queue S → Queue S
queue_start q = record q { active = true }

unfoldable pub queue_stop : {S : Type 0} → Queue S → Queue S
queue_stop q = record q { active = false }

-- `wt_stat_set_int ("Queue.Usage", wt_queue_length ())`
abbrev pub with_queue_usage : {S : Type 0} → Server S → Server S
with_queue_usage b = record b { queue_usage = length b.queue }

-- `wt_queue_update`; the web interface is given the queue and its size, and leaves a result, the queue,
-- and a state of its own
unfoldable pub queue_update :
    {S : Type 0} → (List Task → ℕ → S → ℤ × List Task × S) → Queue S → ℤ × Queue S
queue_update get_task_list q =
    if not q.active
    then (
      pos 0,
      record q {
        server = if q.update then with_queue_usage q.server else q.server;
        update = false;
      },
    )
    else let (res, tasks, s) = get_task_list q.server.queue q.queue_size q.server.desk.ext in
      let b = record (q.server) { queue = tasks; desk = record (q.server.desk) { ext = s } } in
      (res, record q { server = with_queue_usage b; update = true })

module _ {S : Type 0} (v : Services S) where
  -- `wt_get_task` on a task that is not unpacked
  unfoldable pub get_task : Task → S → Task × S
  get_task t s =
      let (failed, s') = v.get_task s t in (if failed then t else record t { unpacked = true }, s')

  -- A round of `wt_queue_unpack`, with `left` for `unpack_count - got`.
  unfoldable pub unpack_round : ℕ → Task → S → ℕ × Task × S
  unfolding get_task
  unpack_round left t s =
      let (t', s') = get_task t s in if t.unpacked then (left, t, s) else (left - 1, t', s')

  -- Its loop.
  unfoldable pub unpack_tasks : ℕ → List Task → S → List Task × S
  unpack_tasks left [] s = ([], s)
  unpack_tasks left (t ∷ ts) s =
      let (left', t', s') = unpack_round left t s in
      let (rest, s'') = unpack_tasks left' ts s' in
      if left == 0 then (t ∷ ts, s) else (t' ∷ rest, s'')

  -- `wt_queue_unpack`
  unfoldable pub queue_unpack : ℕ → Server S → Server S
  queue_unpack unpack_count b =
      let (tasks, s) = unpack_tasks unpack_count b.queue b.desk.ext in
      record b { queue = tasks; desk = record (b.desk) { ext = s } }

module _ {S : Type 0} (v : Services S) (modules : List TestModule) where
  -- The walk of `dyna_delete_all` with the restoring deleter.
  unfoldable pub restore_all : List Task → Desk S → Desk S
  restore_all [] d = d
  restore_all (t ∷ ts) d = restore_all ts (restore v modules t d)

  -- `wt_queue_free`
  unfoldable pub queue_free : Server S → Server S
  queue_free b = record b { queue = []; desk = restore_all b.queue b.desk }
