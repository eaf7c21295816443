-- ===== src/Util.antt =====
-- make_timeout of bs/src/bs_lib/include/util.h: the time at which a wait of some milliseconds ends.
-- time_t and long have 64 bits here, which hold every sum; the uint32_t values wrap.
use nrg_5_sorbonne.Base.{ℕ, ◌+◌, ◌*◌, ◌/◌, ◌%◌, ◌^◌, ◌<◌, ◌≡◌, arith}

-- struct timeval and struct timespec
pub record Timeval : Type 0 where
  pub tv_sec : ℕ
  pub tv_usec : ℕ

pub record Timespec : Type 0 where
  pub tv_sec : ℕ
  pub tv_nsec : ℕ

-- The first argument is what gettimeofday gives; `millisec` is not negative.
unfoldable pub make_timeout : Timeval → ℕ → Timespec
make_timeout tv millisec =
    let sec = millisec / 1000 % 2 ^ 32 in
    let nsec = millisec % 1000 * 1000000 % 2 ^ 32 in
    let tv_sec = tv.tv_sec + sec in
    let tv_nsec = tv.tv_usec * 1000 + nsec in
    record { tv_sec = tv_sec + tv_nsec / 1000000000; tv_nsec = tv_nsec % 1000000000 }

-- For less than 2^31 milliseconds the nanoseconds of the result are less than 10^9, and the
-- result is the present time and the milliseconds, in nanoseconds.
pub make_timeout_lem :
    (tv : Timeval) (millisec : ℕ)
    → millisec < 2 ^ 31
    → ((make_timeout tv millisec).tv_nsec < 1000000000)
      × ((make_timeout tv millisec).tv_sec * 1000000000 + (make_timeout tv millisec).tv_nsec
          ≡ tv.tv_sec * 1000000000 + tv.tv_usec * 1000 + millisec * 1000000)
unfolding make_timeout
make_timeout_lem tv millisec b = (omega arith, omega arith)
