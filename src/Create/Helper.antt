-- ===== src/Create/Helper.antt =====
-- create.go: `createCmd`, run by systemd in the container's unit. It opens the FIFOs, runs runc, writes
-- the exit state file and tells systemd the main process; what it meets outside is its argument.
use containerd_shim_systemd.Prelude.{
  ℕ, ◌+◌, Bool, true, false, ◌||◌, ◌&&◌, not, ◌==◌, String, List, [], ◌∷◌, ◌++◌, Option, none, some,
  str_eq, if◌then◌else◌,
}
use containerd_shim_systemd.State.{PState, zero_state}
use containerd_shim_systemd.State.Time.{zero_time}
use containerd_shim_systemd.State.Status.{exited_init, exit_signal_offset}

-- What `wait4` says of the workload: that it has not ended, or how it has. The status of an exit is
-- below 256, the number of a signal below 128.
pub data WaitStatus : Type 0 where
  still_running : WaitStatus
  exited_with : (status : ℕ) → WaitStatus
  signalled : (signal : ℕ) → WaitStatus

-- `workloadState`; `none` is an error of `wait4`.
unfoldable pub workload_state : ℕ → ℕ → Option WaitStatus → Option PState
workload_state now pid none = none
workload_state now pid (some still_running) =
    some (record { exited_at = zero_time; exit_code = 0; pid = pid; status = "running" })
workload_state now pid (some (exited_with status)) =
    some (record { exited_at = now; exit_code = status; pid = pid; status = "exited" })
workload_state now pid (some (signalled signal)) = some (record {
  exited_at = now;
  exit_code = exit_signal_offset + signal;
  pid = pid;
  status = "exited";
})

pub data OpenMode : Type 0 where
  read_write read_only write_only : OpenMode

-- What `createCmd` meets: the FIFOs of its environment, "" where there is none, and which of them can
-- be opened; whether runc starts, its status and its process id, the pid file, the answers of the two
-- looks at the workload, the times, and whether each write of the state file works.
pub record HelperRun : Type 0 where
  pub stdin_fifo : String
  pub stdout_fifo : String
  pub stderr_fifo : String
  pub can_open : String → OpenMode → Bool
  pub runc_starts : Bool
  pub runc_failure : Option ℕ  -- the exit code of a runc that failed
  pub runc_pid : ℕ
  pub pid_file : Option ℕ
  pub first_look : Option WaitStatus
  pub second_look : Option WaitStatus
  pub runc_ended : ℕ
  pub first_time : ℕ
  pub second_time : ℕ
  pub first_write : Bool
  pub second_write : Bool

-- An assignment of a notification to systemd.
pub data Notice : Type 0 where
  notify_status : String → Notice
  notify_errno notify_main_pid : ℕ → Notice
  ready : Notice

-- What `createCmd` does, as far as it works. A notification that cannot be sent is only logged.
pub data HelperAct : Type 0 where
  opened : (path : String) (mode : OpenMode) → HelperAct
  becomes_subreaper runc_started barrier : HelperAct
  wrote : PState → HelperAct
  told : List Notice → HelperAct

-- `notifyWorkload`.
unfoldable pub notify_workload : PState → List HelperAct
notify_workload st =
    if str_eq st.status "exited"
    then told (notify_status st.status ∷ notify_errno st.exit_code ∷ notify_main_pid st.pid ∷ [])
      ∷ []
    else if str_eq st.status "running"
    then told (ready ∷ notify_main_pid st.pid ∷ []) ∷ []
    else []

-- A FIFO is opened for both first, so that the open that counts does not block.
unfoldable pub open_fifo : HelperRun → String → OpenMode → List HelperAct × Bool
open_fifo r path mode =
    if str_eq path ""
    then ([], true)
    else if not (r.can_open path read_write)
    then ([], false)
    else if not (r.can_open path mode)
    then (opened path read_write ∷ [], false)
    else (opened path read_write ∷ opened path mode ∷ [], true)

-- With a terminal, a FIFO for the errors that is not there is no failure.
unfoldable pub open_stderr : HelperRun → Bool → List HelperAct × Bool
open_stderr r tty =
    if tty && not (str_eq r.stderr_fifo "" || r.can_open r.stderr_fifo read_write)
    then ([], true)
    else open_fifo r r.stderr_fifo write_only

-- Acts, the state that the helper is left with, and whether it goes well so far.
abbrev pub Handoff : Type 0
Handoff = List HelperAct × PState × Bool

-- The look once systemd has the main process.
unfoldable pub look_again : HelperRun → ℕ → Handoff
look_again r pid = elim (workload_state r.second_time pid r.second_look) [
  | none ↦ (barrier ∷ [], zero_state, true)
  | some st ↦
      if str_eq st.status "running"
      then (barrier ∷ [], st, true)
      else if not r.second_write
      then (barrier ∷ [], st, false)
      else (barrier ∷ wrote st ∷ notify_workload st, st, true)
]

-- The first state is written and told of; a workload that runs is looked at again.
unfoldable pub hand_off : HelperRun → ℕ → Option PState → Handoff
hand_off r pid none = ([], zero_state, false)
hand_off r pid (some st) =
    let (acts, st', ok) = look_again r pid in
    let first = wrote st ∷ notify_workload st in
    if not r.first_write
    then ([], st, false)
    else if str_eq st.status "running"
    then (first ++ acts, st', ok)
    else (first, st, true)

-- The state of a workload that the helper does not reap.
abbrev unreaped : ℕ → PState
unreaped pid = record zero_state { pid = pid }

-- The state of a container whose runc failed.
abbrev runc_failed : HelperRun → ℕ → PState
runc_failed r code = record {
  exited_at = r.runc_ended;
  exit_code = code;
  pid = r.runc_pid;
  status = exited_init;
}

-- `createCmd` from the end of runc on. After a failure of runc, systemd is told also if the state
-- cannot be written.
unfoldable pub after_runc : HelperRun → Bool → Handoff
after_runc r no_reap = elim r.runc_failure [
  | some code ↦
      let notices = told (notify_errno code ∷ notify_status exited_init ∷ []) ∷ [] in
      let st = runc_failed r code in
      (if r.first_write then wrote st ∷ notices else notices, st, r.first_write)
  | none ↦ elim r.pid_file [
    | none ↦ ([], zero_state, false)
    | some pid ↦
        hand_off r pid
          (if no_reap then some (unreaped pid) else workload_state r.first_time pid r.first_look)
  ]
]

-- The deferred part of `createCmd`: a workload that ended with a code makes it fail.
unfoldable pub is_success : PState → Bool → Bool
is_success st ok = ok && (st.exit_code == 0 || st.exited_at == zero_time)

-- `createCmd`: what it did, and whether it returns nil.
unfoldable pub create_cmd : HelperRun → Bool → Bool → List HelperAct × Bool
create_cmd r tty no_reap =
    let (ins, in_ok) = open_fifo r r.stdin_fifo read_only in
    let (outs, out_ok) = open_fifo r r.stdout_fifo write_only in
    let (errs, err_ok) = open_stderr r tty in
    let reaps = if no_reap then [] else becomes_subreaper ∷ [] in
    let before = ins ++ (outs ++ (errs ++ reaps)) in
    let (acts, st, ok) = after_runc r no_reap in
    if not in_ok
    then (ins, false)
    else if not out_ok
    then (ins ++ outs, false)
    else if not err_ok
    then (ins ++ (outs ++ errs), false)
    else if not r.runc_starts
    then (before, false)
    else (before ++ runc_started ∷ acts, is_success st ok)
