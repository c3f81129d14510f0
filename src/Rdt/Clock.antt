-- ===== src/Rdt/Clock.antt =====
-- rdt_time.h and rdt_time.cpp: times in milliseconds.
use networking_projects.Base.{ℕ, ◌+◌, ◌*◌, ◌/◌, ◌%◌, ◌^◌, ◌<◌, ◌≡◌, arith}

-- `struct timeval`, of a time after the epoch.
pub record Timeval : Type 0 where
  pub tv_sec : ℕ
  pub tv_usec : ℕ

-- The `int` is kept as its bit pattern: the 64-bit sum is cut to 32 bits by the return.
unfoldable pub timeval_to_msec : Timeval → ℕ
timeval_to_msec t = (t.tv_sec * 1000 + t.tv_usec / 1000) % 2 ^ 32

-- For `millis` that is not negative.
unfoldable pub msec_to_timeval : ℕ → Timeval
msec_to_timeval millis = record { tv_sec = millis / 1000; tv_usec = millis % 1000 * 1000 }

-- A timeout of any `int` number of milliseconds is given to the socket exactly: it is read back
-- unchanged, with the microseconds in their range.
pub timeval_to_msec-msec_to_timeval :
    (millis : ℕ)
    → millis < 2 ^ 31
    → (timeval_to_msec (msec_to_timeval millis) ≡ millis)
      × ((msec_to_timeval millis).tv_usec < 1_000_000)
unfolding timeval_to_msec msec_to_timeval
timeval_to_msec-msec_to_timeval millis h = omega arith
