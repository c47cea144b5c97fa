-- ===== src/State/Status.antt =====
-- state.go: the exit status and the task status that containerd is told.
use containerd_shim_systemd.Prelude.{
  ℕ, ◌+◌, ◌%◌, Bool, true, false, ◌&&◌, ◌||◌, String, str_eq, if◌then◌else◌, ltb, leb, ◌==◌,
}

-- An int32 as the uint32 with the same bits: negative from 2 ^ 31 on.
abbrev pub int32_positive : ℕ → Bool
int32_positive n = ltb 0 n && ltb n 2147483648

abbrev pub int32_negative : ℕ → Bool
int32_negative n = leb 2147483648 n

abbrev pub exited_init : String
exited_init = "exited-init"

abbrev pub exit_signal_offset : ℕ
exit_signal_offset = 128

abbrev pub cld_exited : ℕ
cld_exited = 1

abbrev pub cld_killed : ℕ
cld_killed = 2

abbrev pub cld_dumped : ℕ
cld_dumped = 3

-- `exitStatusFor`; the sum is of uint32.
unfoldable pub exit_status_for : ℕ → ℕ → ℕ
exit_status_for main_code main_status =
    if int32_positive main_status
    then if main_code == cld_killed || main_code == cld_dumped
      then (main_status + exit_signal_offset) % 4294967296
      else main_status
    else 0

-- `task.Status` of the containerd API.
pub data TaskStatus : Type 0 where
  unknown created running stopped paused pausing : TaskStatus

unfoldable pub to_status : String → TaskStatus
to_status s =
    if str_eq s "created" || str_eq s "start-pre"
    then created
    else if str_eq s "running" || str_eq s "start-post"
    then running
    else if str_eq s "pausing"
    then pausing
    else if str_eq s "paused"
    then paused
    else if str_eq s "stopped"
        || str_eq s "dead"
        || str_eq s "failed"
        || str_eq s "stop-post"
        || str_eq s "exited"
        || str_eq s exited_init
        || str_eq s "exit-code"
    then stopped
    else unknown

-- `toStatus(s) == task.Status_STOPPED`.
abbrev pub is_stopped : TaskStatus → Bool
is_stopped stopped = true
is_stopped _ = false

-- `toStatus(s) == task.Status_RUNNING`.
abbrev pub is_running : TaskStatus → Bool
is_running running = true
is_running _ = false
