-- ===== src/Sessions/Clock.antt =====
-- The times of src/sessions.rs. A `SystemTime` is the nanoseconds since the Unix epoch; what the clock
-- says is not before it, and `checked_add` is that of Unix, whose seconds are an i64.
use lfs_cloud.Prelude.{
  ℕ, ◌+◌, ◌-◌, ◌*◌, ◌/◌, ◌%◌, ◌^◌, min, max, Option, none, some, ltb, if◌then◌else◌, Result, ok,
  err,
}
use lfs_cloud.Prelude.Text.{codes}
use lfs_cloud.Errors.{ServerError, internal}

abbrev pub nanos_per_second : ℕ
nanos_per_second = 1_000_000_000

abbrev pub i64_bound : ℕ
i64_bound = 2 ^ 63

-- SystemTime::checked_add
abbrev pub checked_add : ℕ → ℕ → Option ℕ
checked_add time duration =
    if ltb (time + duration) (i64_bound * nanos_per_second) then some (time + duration) else none

unfoldable pub retry_after_duration : ℕ → ℕ → ℕ
retry_after_duration retry_at now =
    let duration = retry_at - now in
    let extra = if ltb 0 (duration % nanos_per_second) then 1 else 0 in
    max (min (duration / nanos_per_second + extra) (2 ^ 64 - 1)) 1

unfoldable pub unix_timestamp_seconds : ℕ → ℕ
unix_timestamp_seconds time = time / nanos_per_second

unfoldable pub unix_timestamp_seconds_i64 : ℕ → Result ServerError ℕ
unfolding unix_timestamp_seconds
unix_timestamp_seconds_i64 time =
    if ltb (unix_timestamp_seconds time) i64_bound
    then ok (unix_timestamp_seconds time)
    else err (internal (codes "lfs session timestamp exceeds SQLite integer range"))
