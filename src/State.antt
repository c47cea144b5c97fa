-- ===== src/State.antt =====
-- state.go: `pState`, an observation of a process, and the merge of two of them.
pub mod Time
pub mod Status
pub mod Merge
pub mod Unit
use containerd_shim_systemd.Prelude.{
  ℕ, Bool, true, false, ◌&&◌, ◌||◌, not, String, str_eq, if◌then◌else◌, ltb, ◌==◌,
}
use Time.{time_zero, zero_time, after}
use Status.{to_status, is_stopped}

pub record PState : Type 0 where
  pub exited_at : ℕ
  pub exit_code : ℕ  -- uint32
  pub pid : ℕ  -- uint32
  pub status : String

-- The zero value, `pState{}`.
abbrev pub zero_state : PState
zero_state = record { exited_at = zero_time; exit_code = 0; pid = 0; status = "" }

-- `Reset`, whatever the state was.
unfoldable pub reset : PState → PState
reset s = record s { exited_at = time_zero; exit_code = 0; pid = 0; status = "" }

unfoldable pub has_exited : PState → Bool
has_exited s =
    if ltb 0 s.exit_code
    then true
    else if is_stopped (to_status s.status)
    then true
    else after s.exited_at time_zero

unfoldable pub has_started : PState → Bool
has_started s = ltb 0 s.pid

-- The four assignments of `CopyTo`, in their order.
copy_exited_at : PState → PState → PState
copy_exited_at s other =
    if after s.exited_at time_zero && not (after other.exited_at time_zero)
    then record other { exited_at = s.exited_at }
    else other

copy_exit_code : PState → PState → PState
copy_exit_code s other =
    if ltb 0 s.exit_code && other.exit_code == 0
    then record other { exit_code = s.exit_code }
    else other

copy_pid : PState → PState → PState
copy_pid s other = if other.pid == 0 then record other { pid = s.pid } else other

copy_status : PState → PState → PState
unfolding has_exited
copy_status s other =
    if not (str_eq s.status "") && (not (has_exited other) || has_exited s)
    then record other { status = s.status }
    else other

-- `s.CopyTo(&other)`: the new value of `other`.
unfoldable pub copy_to : PState → PState → PState
unfolding copy_exited_at copy_exit_code copy_pid copy_status has_exited
copy_to s other =
    if s.pid == 0 && not (has_exited s)
    then other
    else copy_status s (copy_pid s (copy_exit_code s (copy_exited_at s other)))
