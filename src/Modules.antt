-- ===== src/Modules.antt =====
-- webtester/library.c: the registry of testing modules, and how a task is sent to one.
--
-- Modules are loaded at run time, and so is the web interface that webtester/task.c calls: what they
-- do to a task is a record of functions over a state of their own, `Services`. A module may set the
-- status, the flag that keeps the task waiting, and the text buffers of the task.
use web_tester.Prelude.{
  Bool, true, ◌||◌, not, Option, none, some, List, [], ◌∷◌, ℤ, eq_ℤ, Text, codes, if◌then◌else◌,
}
use web_tester.Task.Defs.{Status, Task, current_lid}

-- `wt_module_t`; `has_start` says whether `procs.StartForTesting` is set
pub record TestModule : Type 0 where
  pub name : Text
  pub id : ℤ
  pub has_start : Bool

-- What `StartForTesting` returns (`taken`) and writes: `error` is what it copies to its second
-- argument, if it does.
pub record Reply : Type 0 where
  pub taken : Bool
  pub error : Option Text
  pub sets_keep : Bool
  pub status : Status
  pub pipe : Text
  pub message : Text

-- The loaded code. `get_task` and `put_solution` say whether they failed.
pub record Services (S : Type 0) : Type 0 where
  pub get_task : S → Task → Bool × S
  pub put_solution : S → Task → Bool × S
  pub restore_task : S → Task → S
  pub start : S → ℤ → Task → Reply × S

-- What a sending leaves: whether it failed, the error text if one was written, the task and the
-- state of the loaded code.
pub record Sent (S : Type 0) : Type 0 where
  pub failed : Bool
  pub error : Option Text
  pub task : Task
  pub ext : S

-- The search by `module_id_comparator`.
unfoldable pub find_module : ℤ → List TestModule → Option TestModule
find_module id [] = none
find_module id (x ∷ xs) = if eq_ℤ x.id id then some x else find_module id xs

-- The task as a module leaves it.
abbrev pub replied : Task → Reply → Task
replied t r = record t {
  keep_in_queue = t.keep_in_queue || r.sets_keep;
  status = r.status;
  pipe = r.pipe;
  message = r.message;
}

module _ {S : Type 0} (v : Services S) (modules : List TestModule) where
  -- The call of `StartForTesting`.
  unfoldable pub start_module : TestModule → Task → S → Sent S
  start_module x t s =
      let (r, s') = v.start s x.id t in
      record { failed = not r.taken; error = r.error; task = replied t r; ext = s' }

  -- `wt_module_send_for_testing`
  unfoldable pub module_send_for_testing : Task → S → Sent S
  unfolding find_module start_module
  module_send_for_testing t s = elim (find_module (current_lid t) modules) [
    | none ↦ record { failed = true; error = some (codes "No such module"); task = t; ext = s }
    | some x ↦ if x.has_start then start_module x t s else record {
      failed = true;
      error = some (codes "No StartForTesting entrypoint in module");
      task = t;
      ext = s;
    }
  ]

-- `wt_module_name`
unfoldable pub module_name : List TestModule → ℤ → Text
unfolding find_module
module_name modules lid = elim (find_module lid modules) [
  | none ↦ codes "Undefined"
  | some x ↦ x.name
]
