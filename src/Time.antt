-- ===== src/Time.antt =====
-- The time arithmetic of libwebtester/util.c and the test `CHECK_TIME_DELTA` of macrodef.h.
--
-- A time is a `struct timeval` with fields that are not negative; an interval is a `__u64_t` number
-- of microseconds.
use web_tester.Prelude.{
  ℕ, ◌+◌, ◌-◌, ◌*◌, ◌/◌, ◌%◌, ◌<◌, ◌≡◌, Bool, ◌&&◌, ◌||◌, ℤ, pos, negsuc, is_positive, arith, ltb,
  leb, ◌==◌, if◌then◌else◌,
}

pub record Timeval : Type 0 where
  pub sec : ℕ
  pub usec : ℕ

-- `timedist`
unfoldable pub timedist : Timeval → Timeval → Timeval
timedist from to =
    if ltb to.sec from.sec || (from.sec == to.sec && ltb to.usec from.usec)
    then record { sec = 0; usec = 0 }
    else if leb from.usec to.usec
    then record { sec = to.sec - from.sec; usec = to.usec - from.usec }
    else record { sec = to.sec - from.sec - 1; usec = to.usec + 1000000 - from.usec }

-- `tv_usec_cmp`
unfoldable pub tv_usec_cmp : Timeval → ℕ → ℤ
tv_usec_cmp tv usecs =
    let sec = usecs / 1000000 in
    let usec = usecs % 1000000 in
    if ltb sec tv.sec
    then pos 1
    else if ltb tv.sec sec
    then negsuc 0
    else if ltb usec tv.usec
    then pos 1
    else if ltb tv.usec usec
    then negsuc 0
    else pos 0

-- `CHECK_TIME_DELTA`
unfoldable pub check_time_delta : Timeval → Timeval → ℕ → Bool
check_time_delta from to delta = is_positive (tv_usec_cmp (timedist from to) delta)

-- A time with less than a second of microseconds.
abbrev pub IsTime : Timeval → Type 0
IsTime t = t.usec < 1000000

-- A time in microseconds.
abbrev pub micros : Timeval → ℕ
micros t = t.sec * 1000000 + t.usec

-- The distance of two times is a time, and is their difference in microseconds, 0 if the second is
-- not later.
timedist-micros :
    (from to : Timeval)
    → IsTime from
    → IsTime to
    → IsTime (timedist from to) × (micros (timedist from to) ≡ micros to - micros from)
unfolding timedist
timedist-micros from to f t = ground arith

-- The comparison has the sign of the difference of the two numbers of microseconds.
tv_usec_cmp-micros :
    (tv : Timeval) (usecs : ℕ)
    → IsTime tv
    → tv_usec_cmp tv usecs
      ≡ (if ltb usecs (micros tv) then pos 1 else if ltb (micros tv) usecs then negsuc 0 else pos 0)
unfolding tv_usec_cmp
tv_usec_cmp-micros tv usecs t = ground arith

-- `CHECK_TIME_DELTA` holds exactly when more microseconds than the interval have passed.
pub check_time_delta-micros :
    (from to : Timeval) (delta : ℕ)
    → IsTime from
    → IsTime to
    → check_time_delta from to delta ≡ ltb delta (micros to - micros from)
unfolding check_time_delta
check_time_delta-micros from to delta f t =
    let d = timedist-micros from to f t in
    rw (tv_usec_cmp-micros (timedist from to) delta d.0, d.1) (ground arith)
