-- ===== src/Scheduler.antt =====
-- libwebtester/scheduler.c: callbacks that are called at intervals.
--
-- The list of items is the module's global `scheduler`, which exists once `scheduler_init` has run; a
-- null callback is 0. What a callback does to the program is a function of its state. The mutex, held
-- over each operation, is left out.
pub mod Overview
pub mod Registry
mod Examples
use web_tester.Prelude.{
  ℕ, ◌≡◌, refl, Bool, true, false, Option, none, some, List, [], ◌∷◌, ◌++◌, ℤ, pos, negsuc, ◌==◌,
  if◌then◌else◌, arith, Bool-cases, inl, inr,
}
use web_tester.Time.{Timeval, check_time_delta}

-- `scheduler_item_t`; `context` is its `data`
pub record Entry : Type 0 where
  pub callback : ℕ
  pub context : ℕ
  pub interval : ℕ
  pub last_call : Timeval

-- `spawn_new_item`, with the memory that `malloc` gives
unfoldable pub spawn_new_item : ℕ → ℕ → ℕ → Timeval → Option Entry
spawn_new_item callback context interval now =
    if callback == 0
    then none
    else some
        (record { callback = callback; context = context; interval = interval; last_call = now })

-- `scheduler_add`
unfoldable pub add : List Entry → ℕ → ℕ → ℕ → Timeval → ℤ × List Entry
add entries callback context interval now = elim (spawn_new_item callback context interval now) [
  | none ↦ (negsuc 0, entries)
  | some e ↦ (pos 0, entries ++ e ∷ [])
]

-- `scheduler_remove`
unfoldable pub remove : List Entry → ℕ → List Entry
remove [] callback = []
remove (e ∷ es) callback =
    let rest = remove es callback in if e.callback == callback then rest else e ∷ rest

-- `scheduler_overview` at the time `now`; a callback is called with its context
module _ {S : Type 0} (call : ℕ → ℕ → S → S) where
  unfoldable pub overview : List Entry → Timeval → S → List Entry × S
  overview [] now s = ([], s)
  overview (e ∷ es) now s =
      let due = check_time_delta e.last_call now e.interval in
      let (rest, s') = overview es now (if due then call e.callback e.context s else s) in
      ((if due then record e { last_call = now } else e) ∷ rest, s')
