-- ===== src/Testing/Pool.antt =====
-- The pool of testing threads of webtester/modules/informatics/tester.c: starting a thread, stopping,
-- suspending and resuming.
--
-- `active` says that the mutex of that name is locked. GLib's pool is the number of its threads:
-- waiting for it to be freed lets all of them end. An operation that waits for a mutex is a step that
-- is not possible yet; `Informatics_start_testing_thread` is two steps, since others may come between
-- its wait for `suspended` and the rest.
use web_tester.Prelude.{
  ℕ, suc, ◌-◌, ◌≤◌, ◌<◌, ◌≡◌, Bool, true, false, not, ℤ, pos, negsuc, Text, codes, leb,
  if◌then◌else◌, arith,
}
use web_tester.Task.Defs.{Task}

-- The static variables, and the callers that have passed the wait for `suspended`.
pub record Pool : Type 0 where
  pub active : Bool
  pub suspended : Bool
  pub threads : ℕ
  pub max_threads : ℕ
  pub entered : ℕ

-- `Informatics_init_testing`, with `max_threads` from the configuration
abbrev pub init_testing : ℕ → Pool
init_testing max_threads = record {
  active = true;
  suspended = false;
  threads = 0;
  max_threads = max_threads;
  entered = 0;
}

-- The result of starting a thread: it is pushed, or not, with the error.
pub data Started : Type 0 where
  pushed : Pool → Task → Started
  not_pushed : Pool → Task → Text → Started

-- `Informatics_start_testing_thread` after the wait
unfoldable pub start_testing_thread : Pool → Task → Started
start_testing_thread p task =
    if not p.active
    then not_pushed p task (codes "Testing stuff is not active")
    else if leb p.max_threads p.threads
    then not_pushed p (record task { keep_in_queue = true }) (codes "Testing pool is full")
    else pushed (record p { threads = suc p.threads }) task

-- `Informatics_stop_testing`; the pool and the mutex have been created
unfoldable pub stop_testing : Pool → ℤ × Pool
stop_testing p =
    if not p.active then (negsuc 0, p) else (pos 0, record p { active = false; threads = 0 })

-- `Informatics_SuspendTesting`, once the mutex `suspended` is free
abbrev pub suspend_testing : Pool → Pool
suspend_testing p = record p { suspended = true; threads = 0 }

-- `Informatics_ResumeTesting`
abbrev pub resume_testing : Pool → Pool
resume_testing p = record p { suspended = false }

abbrev pool_of : Started → Pool
pool_of (pushed p task) = p
pool_of (not_pushed p task error) = p

abbrev pub left_start : Pool → Pool
left_start p = record p { entered = p.entered - 1 }

pub data Step : Pool → Pool → Type 0 where
  enters : (p : Pool) → p.suspended ≡ false → Step p (record p { entered = suc p.entered })
  starts :
      (p : Pool) (task : Task)
      → 0 < p.entered
      → Step p (left_start (pool_of (start_testing_thread p task)))
  ends : (p : Pool) → 0 < p.threads → Step p (record p { threads = p.threads - 1 })
  stops : (p : Pool) → Step p (stop_testing p).1
  suspends : (p : Pool) → p.suspended ≡ false → Step p (suspend_testing p)
  resumes : (p : Pool) → p.suspended ≡ true → Step p (resume_testing p)

pub data Run : Pool → Pool → Type 0 where
  done : (p : Pool) → Run p p
  more : (p q r : Pool) → Step p q → Run q r → Run p r

-- No more threads than allowed, and none once testing has been stopped.
abbrev pub IsPool : Pool → Type 0
IsPool p = (p.threads ≤ p.max_threads) × (p.active ≡ false → p.threads ≡ 0)

-- A caller that has passed the wait for `suspended` still starts its thread after testing was suspended:
-- from every state with room that is active and not suspended, a thread can come to run while testing is
-- suspended.
pub suspended-threads :
    (p : Pool) (task : Task)
    → p.active ≡ true
    → p.suspended ≡ false
    → 0 < p.max_threads
    → (q : Pool) × Run p q × (q.suspended ≡ true) × (q.threads ≡ 1)
unfolding start_testing_thread
suspended-threads p task active free room =
    let entered : Pool = record p { entered = suc p.entered } in
    let late = suspend_testing entered in
    let full : leb p.max_threads 0 ≡ false = ground arith in
    (
      left_start (pool_of (start_testing_thread late task)),
      more p entered _ (enters p free) (
          more entered late _ (suspends entered free)
            (more late _ _ (starts late task (omega arith)) (done _))),
      ground (arith),
      ground (arith),
    )
