-- ===== src/Task/Defs.antt =====
-- webtester/task.h and task.c: a task, its flags and buffers, and its chain of modules.
--
-- The status and the two flags of `int flags` are a data type and two Booleans. The chain of libraries
-- is the part `lid[0 .. last)` of the array, so that `last` is its length. The parameters of a task,
-- its lock, log and time stamp are left out: nothing that is modelled reads them.
use web_tester.Prelude.{
  ℕ, Bool, false, ◌&&◌, ◌||◌, List, [], ◌∷◌, ◌++◌, ℤ, pos, eq_ℤ, Text, length, leb, if◌then◌else◌,
}

-- `TS_PENDING` and the others
pub data Status : Type 0 where
  pending running finished interrupted : Status

-- `wt_task_t`; `pipe` and `message` are `buffers.pipe` and `buffers.resultMessage`
pub record Task : Type 0 where
  pub sid : ℤ
  pub lid : ℤ
  pub keep_in_queue : Bool
  pub unpacked : Bool
  pub status : Status
  pub pipe : Text
  pub message : Text
  pub chain : List ℤ
  pub cur : ℕ
  pub cur_lid : ℤ
  pub started : Bool

-- `wt_spawn_new_task`
abbrev pub spawn : ℤ → ℤ → Task
spawn sid lid = record {
  sid = sid;
  lid = lid;
  keep_in_queue = false;
  unpacked = false;
  status = pending;
  pipe = [];
  message = [];
  chain = [];
  cur = 0;
  cur_lid = pos 0;
  started = false;
}

-- `wt_task_search_comparator`
abbrev pub same_task : Task → Task → Bool
same_task l r = eq_ℤ l.lid r.lid && eq_ℤ l.sid r.sid

-- `TASK_CURLID`
abbrev pub current_lid : Task → ℤ
current_lid t = if t.started then t.cur_lid else t.lid

-- `TASK_CHAINEMPTY`
abbrev pub is_chain_empty : Task → Bool
is_chain_empty t = leb (length t.chain) t.cur

-- `TASK_BUFFER_SET_LOCKED`: the macro appends, `strncat`, at whatever length
unfoldable pub set_buffer_locked : Task → Text → Task
set_buffer_locked t text = record t { pipe = t.pipe ++ text }

-- `TASK_FREE_BUFFER_LOCKED`
unfoldable pub free_buffer_locked : Task → Task
unfolding set_buffer_locked
free_buffer_locked t = set_buffer_locked t []

-- `MAXCHAIN`
abbrev pub max_chain : ℕ
max_chain = 32

-- The outcome of `wt_task_chaintest`: result 0, result -1, or a write past the end of `lid`.
pub data Added : Type 0 where
  added : Task → Added
  refused : Added
  overrun : Added

-- The search of `wt_task_chaintest` through `lid`.
unfoldable pub in_chain : ℤ → List ℤ → Bool
in_chain lid [] = false
in_chain lid (x ∷ xs) = eq_ℤ x lid || in_chain lid xs

-- `wt_task_chaintest`
unfoldable pub chain_test : Task → ℤ → Added
unfolding in_chain
chain_test t lid =
    if in_chain lid t.chain || eq_ℤ t.lid lid
    then refused
    else if leb max_chain (length t.chain)
    then overrun
    else added (record t { chain = t.chain ++ lid ∷ [] })
