-- ===== src/Belts/Examples.antt =====
-- The belts at work: two tasks for a module that finishes each task at once, as
-- modules/nullmodule/nullmodule.c does, and a web interface that answers as told.
use web_tester.Prelude.{
  ℕ, ◌+◌, ◌≤◌, ◌≡◌, ◌⊎◌, Bool, true, false, none, some, List, [], ◌∷◌, pos, codes, length, arith,
}
use web_tester.Task.Defs.{finished, running, Task, spawn}
use web_tester.Modules.{TestModule, Services}
use web_tester.Belts.Defs.{Desk, Server, fill, accumulator_overview, belts_update}
use web_tester.Belts.Conservation.{held, total, belts_update-total, accumulator_overview-held}
use web_tester.Belts.Capacity.{IsBelts, belts_update-IsBelts}
use web_tester.Belts.Progress.{AllKept, fill-stops}
use web_tester.Belts.Runs.{updates, arrives, next, done, Run-keeps}
use web_tester.Belts.Identity.{tally}
use web_tester.Belts.Advance.{advance, advance-fault}
use web_tester.Dyna.Memory.{fault}
use web_tester.Dyna.Examples.{memory, handle, memory-IsDyna}

-- The state of the loaded code counts the tasks that were given back; a result is refused if told so.
abbrev services : Bool → Services ℕ
services refuses = record {
  get_task = λ s t. (false, s);
  put_solution = λ s t. (refuses, s);
  restore_task = λ s t. s + 1;
  start = λ s id t. (
    record {
      taken = true;
      error = none;
      sets_keep = false;
      status = finished;
      pipe = [];
      message = [];
    },
    s,
  );
}

abbrev modules : List TestModule
modules = record { name = codes "null"; id = pos 1; has_start = true } ∷ []

abbrev first_task : Task
first_task = spawn (pos 7) (pos 1)

-- It has the same module again in its chain.
abbrev second_task : Task
second_task = record (spawn (pos 8) (pos 1)) { chain = pos 1 ∷ [] }

abbrev running_task : Task
running_task = record (spawn (pos 9) (pos 1)) { status = running; pipe = codes "Compiling" }

abbrev kept_task : Task
kept_task = record second_task { keep_in_queue = true }

abbrev desk : Desk ℕ
desk = record { accumulator = none; overviews = 0; gone = []; ext = 0 }

abbrev server : Server ℕ
server = record {
  size = 2;
  queue = first_task ∷ first_task ∷ second_task ∷ [];
  belts = [];
  desk = desk;
  active = true;
  state_changed = true;
  waiting = false;
  update = true;
  belts_usage = 0;
  queue_usage = 0;
}

-- A first update sends two tasks to their module and drops the doubled one.
belts_update-total_example :
    total first_task (belts_update (services false) modules server) ≡ total first_task server
belts_update-total_example = belts_update-total (services false) modules first_task server

belts_update-IsBelts_example : IsBelts 2 (belts_update (services false) modules server).belts
belts_update-IsBelts_example =
    belts_update-IsBelts (services false) modules server
      (record { within = omega arith; apart = tt })

fill-stops_example :
    AllKept (fill (services false) modules 2 (first_task ∷ []) [] desk).0
    ⊎ (2 ≤ length (fill (services false) modules 2 (first_task ∷ []) [] desk).1)
fill-stops_example = fill-stops (services false) modules 2 (first_task ∷ []) [] desk

accumulator_overview-held_example :
    held first_task
      (accumulator_overview (services true) (record desk { accumulator = some (first_task ∷ []) }))
    ≡ held first_task (record desk { accumulator = some (first_task ∷ []) })
accumulator_overview-held_example =
    accumulator_overview-held (services true) first_task
      (record desk { accumulator = some (first_task ∷ []) })

advance-fault_example : advance handle 16 memory ≡ fault
advance-fault_example =
    advance-fault memory handle [] (record { at = 16; item = 5; tag = 0 })
      (record { at = 32; item = 6; tag = 1 } ∷ []) memory-IsDyna

-- The server with no task yet, and with the first.
abbrev empty_server : Server ℕ
empty_server = record server { queue = [] }

abbrev fed_server : Server ℕ
fed_server = record empty_server { queue = first_task ∷ []; desk = record desk { ext = 4 } }

Run-keeps_example :
    IsBelts 2 (belts_update (services false) modules fed_server).belts
    × (total first_task (belts_update (services false) modules fed_server)
        ≡ total first_task empty_server + tally first_task (first_task ∷ []))
Run-keeps_example =
    Run-keeps (services false) modules first_task
      (next (arrives {b = empty_server} (first_task ∷ []) 4) (next (updates {b = fed_server}) done))
      (record { within = omega arith; apart = tt })
