-- ===== src/Queue/Deadline.antt =====
-- `timespec_add_ms` of plugin/queue.c.
use qemu_mip.Prelude.{ℕ, ◌+◌, ◌-◌, ◌*◌, ◌/◌, ◌%◌, ◌<◌, ◌≡◌, arith, leb, if◌then◌else◌}

-- `struct timespec`
pub record Timespec : Type 0 where
  pub tv_sec : ℕ
  pub tv_nsec : ℕ

abbrev pub second : ℕ
second = 1000000000

-- `ms` is positive at every call
unfoldable pub timespec_add_ms : Timespec → ℕ → Timespec
timespec_add_ms ts ms =
    let nsec = ts.tv_nsec + ms % 1000 * 1000000 in
    if leb second nsec
    then record { tv_sec = ts.tv_sec + ms / 1000 + 1; tv_nsec = nsec - second }
    else record { tv_sec = ts.tv_sec + ms / 1000; tv_nsec = nsec }

abbrev pub nanoseconds : Timespec → ℕ
nanoseconds ts = ts.tv_sec * second + ts.tv_nsec

-- From a proper time the result is proper, with `tv_nsec` below a second, and is later by exactly
-- `ms` milliseconds.
pub timespec_add_ms_lem :
    (ts : Timespec) (ms : ℕ)
    → ts.tv_nsec < second
    → let t = timespec_add_ms ts ms in
      (t.tv_nsec < second) × (nanoseconds t ≡ nanoseconds ts + ms * 1000000)
unfolding timespec_add_ms
timespec_add_ms_lem ts ms h = ground arith
