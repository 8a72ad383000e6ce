-- ===== src/Runner/Process.antt =====
-- The processes on the belts of librun/run.c and what changes them.
--
-- What the kernel says of a process is a parameter. `signalled` holds the processes that were asked to
-- end, by a signal or by `lrvm_kill`. Numbers in messages are left out.
-- A DWORD has 64 bits, as a `long`, and is less than `dword`. A pid is unsigned, and so the test
-- for a negative one is never true.
use web_tester.Prelude.{
  ℕ, suc, ◌+◌, ◌-◌, ◌%◌, Bool, false, ◌&&◌, ◌||◌, List, ℤ, pos, negsuc, Text, ltb, leb, ◌==◌,
  if◌then◌else◌,
}
use web_tester.Time.{Timeval}

-- `PS_RUNNING` and so on, the bits of the state
pub record ProcState : Type 0 where
  pub running : Bool
  pub finished : Bool
  pub killed : Bool
  pub terminated : Bool
  pub stopped : Bool
  pub continued : Bool
  pub time_limit : Bool
  pub memory_limit : Bool
  pub exec_error : Bool

abbrev pub no_state : ProcState
no_state = record {
  running = false;
  finished = false;
  killed = false;
  terminated = false;
  stopped = false;
  continued = false;
  time_limit = false;
  memory_limit = false;
  exec_error = false;
}

-- The fields of `struct taskstats` that are read.
pub record Stats : Type 0 where
  pub hiwater_rss : ℕ
  pub hiwater_vm : ℕ
  pub ac_etime : ℕ
  pub ac_stime : ℕ
  pub ac_utime : ℕ

-- `RUN_TASKSTATS_ISZOMBIE`
abbrev pub is_zombie : Stats → Bool
is_zombie s =
    s.hiwater_rss == 0 && s.hiwater_vm == 0 && s.ac_etime == 0 && s.ac_utime == 0 && s.ac_stime == 0

-- `run_process_info_t`
pub record ProcessInfo : Type 0 where
  pub limit_rss : ℕ
  pub limit_time : ℕ
  pub state : ProcState
  pub locked : Bool
  pub lrvm_pid : ℕ
  pub task_pid : ℕ
  pub zombied : Bool
  pub killing : Bool
  pub timestamp : Timeval
  pub zombie_timestamp : Timeval
  pub base_time : ℕ
  pub usage_rss : ℕ
  pub usage_time : ℕ
  pub term_sig : ℕ
  pub stop_sig : ℕ
  pub err_desc : Text
  pub signalled : List ℕ

-- The static variables.
pub record RunSettings : Type 0 where
  pub lrvm_ans_timeout : ℕ
  pub zombie_timeout : ℕ
  pub rss_correction : ℤ
  pub time_correction : ℤ
  pub peak_time : ℕ
  pub peak_rss : ℕ

abbrev max : ℕ → ℕ → ℕ
max a b = if ltb b a then a else b

-- `ACC_TIME_USAGE`
abbrev pub acc_time_usage : Stats → ℕ
acc_time_usage s = max (max s.ac_etime s.ac_stime) s.ac_utime

-- The numbers of a DWORD.
abbrev pub dword : ℕ
dword = 18446744073709551616

unfoldable pub corrected_rss : ℤ → ℕ → ℕ
corrected_rss (pos n) rss = (rss + n) % dword
corrected_rss (negsuc n) rss = if ltb rss (suc n) then rss else rss - suc n

-- `r_base.time - time_correction`
unfoldable pub time_threshold : ℤ → ℕ → ℕ
time_threshold (pos n) base = if leb n base then base - n else base + dword - n
time_threshold (negsuc n) base = (base + suc n) % dword

abbrev pub corrected_time : ℤ → ℕ → ℕ → ℕ
corrected_time correction base time =
    let threshold = time_threshold correction base in
    if leb threshold time then time - threshold else 0

-- `proc_fill_from_stats`
abbrev pub fill_from_stats : RunSettings → Stats → ProcessInfo → ProcessInfo
fill_from_stats c s p = record p {
  usage_rss = corrected_rss c.rss_correction s.hiwater_rss;
  usage_time = corrected_time c.time_correction p.base_time (acc_time_usage s);
}

abbrev pub exceeds : ℕ → ℕ → Bool
exceeds limit usage = ltb 0 limit && ltb limit usage

abbrev pub over_memory : RunSettings → ProcessInfo → Bool
over_memory c p = exceeds p.limit_rss p.usage_rss || exceeds c.peak_rss p.usage_rss

abbrev pub over_time : RunSettings → ProcessInfo → Bool
over_time c p = exceeds p.limit_time p.usage_time || exceeds c.peak_time p.usage_time

-- `CHECK_LIMITS`
abbrev pub check_limits : RunSettings → ProcessInfo → ProcState → ProcState
check_limits c p state = record state {
  memory_limit = state.memory_limit || over_memory c p;
  time_limit = state.time_limit || over_time c p;
}
