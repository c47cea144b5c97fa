-- ===== src/State/Time.antt =====
-- The `time.Time` values of the shim (state.go, manager.go), as nanoseconds since the instant
-- 2 ^ 63 microseconds before the Unix epoch, so that every `time.UnixMicro` of an int64 and the
-- zero `time.Time` (January 1 of the year 1) are numbers.
use containerd_shim_systemd.Prelude.{ℕ, ◌+◌, ◌*◌, ◌-◌, ◌%◌, ◌^◌, Bool, ltb}

-- `timeZero = time.UnixMicro(0)`, the Unix epoch.
abbrev pub time_zero : ℕ
time_zero = 9223372036854775808 * 1000

-- `time.Time{}`: 62135596800 seconds before the epoch.
abbrev pub zero_time : ℕ
zero_time = (9223372036854775808 - 62135596800000000) * 1000

-- `t.After(u)`.
abbrev pub after : ℕ → ℕ → Bool
after t u = ltb u t

-- `time.UnixMicro(int64(x))` for a uint64 `x`: the conversion wraps.
unfoldable pub unix_micro : ℕ → ℕ
unix_micro x = ((x + 2 ^ 63) % 2 ^ 64) * 1000
