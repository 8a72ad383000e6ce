-- ===== src/Queue/Examples.antt =====
-- A queue of two tasks, one of which is to be unpacked.
use web_tester.Prelude.{ℕ, suc, ◌-◌, ◌≡◌, false, none, List, [], ◌∷◌, pos}
use web_tester.Task.Defs.{Task, spawn}
use web_tester.Modules.{Services}
use web_tester.Belts.Defs.{Server}
use web_tester.Belts.Conservation.{total}
use web_tester.Queue.{queue_unpack}
use web_tester.Queue.Unpack.{packed, queue_unpack-packed}

-- A web interface that answers; its state counts the requests.
abbrev services : Services ℕ
services = record {
  get_task = λ s t. (false, suc s);
  put_solution = λ s t. (false, s);
  restore_task = λ s t. s;
  start = λ s id t. (
    record {
      taken = false;
      error = none;
      sets_keep = false;
      status = t.status;
      pipe = t.pipe;
      message = t.message;
    },
    s,
  );
}

abbrev tasks : List Task
tasks = spawn (pos 7) (pos 1) ∷ spawn (pos 8) (pos 1) ∷ []

abbrev server : Server ℕ
server = record {
  size = 2;
  queue = tasks;
  belts = [];
  desk = record { accumulator = none; overviews = 0; gone = []; ext = 0 };
  active = false;
  state_changed = false;
  waiting = false;
  update = false;
  belts_usage = 0;
  queue_usage = 0;
}

queue_unpack-packed_example :
    (total (spawn (pos 7) (pos 1)) (queue_unpack services 1 server)
      ≡ total (spawn (pos 7) (pos 1)) server)
    × (((s : ℕ) (t : Task) → (services.get_task s t).0 ≡ false)
        → packed (queue_unpack services 1 server).queue ≡ packed tasks - 1)
queue_unpack-packed_example = queue_unpack-packed services (spawn (pos 7) (pos 1)) 1 server
