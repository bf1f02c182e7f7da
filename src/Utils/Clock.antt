-- ===== src/Utils/Clock.antt =====
-- `get_tick_count` and `mstime64` of usbfluxd/utils.c.
use usbfluxd.Prelude.{ℕ, ◌+◌, ◌*◌, ◌/◌, ◌%◌, ◌^◌, Option, none, some}

-- `struct timespec` and `struct timeval`.
pub record Timespec : Type 0 where
  pub tv_sec : ℕ
  pub tv_nsec : ℕ

pub record Timeval : Type 0 where
  pub tv_sec : ℕ
  pub tv_usec : ℕ

-- What `clock_gettime` tells, if it does not fail, and what `gettimeofday` tells.
pub get_tick_count : Option Timespec → Timeval → Timeval
get_tick_count (some ts) day = record { tv_sec = ts.tv_sec; tv_usec = ts.tv_nsec / 1000 }
get_tick_count none day = day

-- The conversion to `uint64_t`; the sum of two `long long` does not overflow.
pub mstime64 : Option Timespec → Timeval → ℕ
unfolding get_tick_count
mstime64 clock day =
    let tv = get_tick_count clock day in (tv.tv_sec * 1000 + tv.tv_usec / 1000) % 2 ^ 64
