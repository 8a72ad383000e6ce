-- ===== src/Lib.antt =====
-- WebTester: the core of a server that tests solutions of programming problems.
--
-- The server takes tasks from a web interface into a queue, moves them to the belts, where testing
-- modules work on them, and gives the results back. The parts modelled here, with the functions of
-- the same names without their prefixes (`dyna_`, `assarr_`, `hook_`, `scheduler_`, `wt_belts_`):
--
--   Dyna       libwebtester/dynastruc.c, dynastruc.h    doubly linked lists
--   Assarr     libwebtester/assarr.c, assarr.h          associative arrays
--   Flexval    libwebtester/flexval.c, flexval.h        values that are written and read
--   Hive       libwebtester/hive.c, hive.h              the tree of the configuration
--   Hooks      libwebtester/hook.c                      callbacks by name and priority
--   Scheduler  libwebtester/scheduler.c                 callbacks at intervals
--   Time       libwebtester/util.c, macrodef.h          time arithmetic
--   Strings    libwebtester/strlib.c, util.c            string functions
--   Task       webtester/task.c, task.h                 a task, its buffers and its chain
--   Modules    webtester/library.c                      the registry of testing modules
--   Queue      webtester/queue.c                        the queue before the belts
--   Belts      webtester/belts.c                        the belts, their overview and their filling
--   Testing    webtester/modules/informatics/tester.c   the testing of a solution on its tests
--   Blacklist  libwebtester/ipc-blacklist.c             addresses refused for a while
--   Unique     libwebtester/unique.c                    unique numbers
--   Runner     librun/run.c, run.h                      the processes of the sandbox
--   HvPool     librun/hv_pool.c                         statistics of ended processes
--
-- All these paths are below src/. Prelude holds what the modules share: names of the libraries, Boolean
-- tests on numbers, signed integers, strings as lists of bytes.
--
-- Dyna works on cells in a memory: a command may fault on a cell that is not allocated, and `IsDyna`
-- says which list a handle stands for. The other parts use lists where the code uses dynastruc, since
-- Dyna relates the operations to lists; only `belts_fill`, which reads a cell that it has deleted,
-- is looked at on cells again, in Belts.Advance. In Belts a state is a record: the queue, the belts and
-- the accumulator as lists of tasks, the flags, and how tasks left. What the loaded modules and the web
-- interface do is a record of functions, `Services`, over a state of their own. Belts.Runs has the steps
-- of the server's threads, one after another.
--
-- Testing follows one task through its thread: Testing.Compile saves and compiles the solution,
-- Testing.Loop runs the rounds of `testing_main_loop` on the variables of Testing.State,
-- Testing.MainLoop puts them together, and Testing.Thread sets the task's result. What processes, files
-- and the mutex `active` do is the record `Env` of functions. Testing.Judge and Testing.Score say what
-- the tests come to without the loop's variables. Testing.Dirs and Testing.Pool are the clearing of old
-- directories and the pool of threads, whose steps may come between each other.
--
-- In Runner one process of the sandbox is a record with its locks and flags; Runner.Actions has what the
-- overview, the reports of its LRVM and the end of its execution do with it, given what the kernel says
-- of it. HvPool holds such statistics, and Time measures how long a process has been silent. Flexval has
-- floats as a parameter, `Floats`; its `flexval_atol` stands in Hive.Tree, which reads integers by it.
--
-- Loops of dynastruc.c run on fuel, a round for each item and one more. The loop over a chain has a
-- round for each library that is left in it, and that of `assarr_unpack` a round for each character
-- and one more: each round but the last takes at least one, except where the code itself does not
-- move on. That of
-- `hive_parse_buf` has a round for each character and one more, and looking up a key one for each slash.
-- Reading a serialized value has two rounds for each character and two more, since an array inside an
-- array is read by a loop of its own from a text that is no longer.
-- Waiting for the statistics of a process has two rounds more than the counter may count. All other
-- loops are structural.
--
-- Not modelled: locks and threads, output and logs, the reading of the configuration, console commands
-- and statistics other than the two usages, the rest of the sandbox (librun), the other modules and plugins
-- loaded at run time, the front end, and the wrappers of system libraries. Numbers of `int` and `long`
-- are unbounded, except that the hash is reduced as in the code, where no intermediate value reaches
-- 2^31, and that Runner.Process wraps the sums of DWORDs. Strings are lists of bytes; the sizes of
-- buffers matter only where a definition says so. A `char` is signed, and memory that `malloc` is asked
-- for is a parameter, where null stands for failure.
pub mod Prelude
pub mod Dyna
pub mod Task
pub mod Modules
pub mod Belts
pub mod Queue
pub mod Testing
pub mod Time
pub mod Runner
pub mod Scheduler
pub mod Hooks
pub mod Assarr
pub mod Strings
pub mod Flexval
pub mod Hive
pub mod HvPool
pub mod Blacklist
pub mod Unique
