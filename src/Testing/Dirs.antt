-- ===== src/Testing/Dirs.antt =====
-- `unlink_unwanted_testing_dirs` of webtester/modules/informatics/tester.c.
--
-- The static `last_unlink` is the state, `none` before the first call. The listing of the testing
-- directory and the lock files are parameters of a call.
use web_tester.Prelude.{
  ℕ, zero, suc, ◌-◌, Bool, Option, none, some, List, [], ◌∷◌, Text, length, if◌then◌else◌,
}
use web_tester.Time.{Timeval, check_time_delta}

-- The loop on the listing, `to_delete` of its items: a directory that is locked is passed over, and
-- counts all the same. The directories that are unlinked, in order.
unfoldable pub unlink_loop : (Text → Bool) → ℕ → List Text → List Text
unlink_loop locked zero ls = []
unlink_loop locked (suc to_delete) [] = []
unlink_loop locked (suc to_delete) (cur_dir ∷ ls) =
    let rest = unlink_loop locked to_delete ls in if locked cur_dir then rest else cur_dir ∷ rest

-- `last_unlink` at the call; `later` is the time at which it is set first.
abbrev pub initialized : Timeval → Option Timeval → Timeval
initialized later none = later
initialized later (some last) = last

-- `unlink_unwanted_testing_dirs`, with the interval and the number of directories to keep.
unfoldable pub unlink_unwanted_testing_dirs :
    (Text → Bool) → List Text → ℕ → ℕ → Timeval → Timeval → Option Timeval → Timeval × List Text
unlink_unwanted_testing_dirs locked ls interval keep_alive cur later last =
    let from = initialized later last in
    if check_time_delta from cur interval
    then (cur, unlink_loop locked (length ls - keep_alive) ls)
    else (from, [])

abbrev pub take : ℕ → List Text → List Text
take zero ls = []
take (suc n) [] = []
take (suc n) (l ∷ ls) = l ∷ take n ls

abbrev pub unlocked : (Text → Bool) → List Text → List Text
unlocked locked [] = []
unlocked locked (l ∷ ls) = if locked l then unlocked locked ls else l ∷ unlocked locked ls
