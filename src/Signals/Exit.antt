-- ===== src/Signals/Exit.antt =====
-- unitsignals.go, `serviceExitState`: which signals tell of an exit, and of which.
use containerd_shim_systemd.Prelude.{ℕ, ◌<◌, ◌≡◌, refl, sym, true, some, arith}
use containerd_shim_systemd.State.{PState, has_exited}
use containerd_shim_systemd.State.Time.{unix_micro}
use containerd_shim_systemd.State.Unit.{
  UnitProperties, load_exit_from_unit, load_exit_from_unit-main,
}
use containerd_shim_systemd.State.Status.{exit_status_for, to_status, is_stopped}
use containerd_shim_systemd.Signals.{Changed, uint32, int32, uint64, service_exit_state}

-- The properties of a service whose main process has ended.
pub record Tells (changed : Changed) (pid status si_code at : ℕ) : Type 0 where
  pub pid_is : changed "ExecMainPID" ≡ some (uint32 pid)
  pub status_is : changed "ExecMainStatus" ≡ some (int32 status)
  pub code_is : changed "ExecMainCode" ≡ some (int32 si_code)
  pub time_is : changed "ExecMainExitTimestamp" ≡ some (uint64 at)
  pub pid_set : 0 < pid
  pub status_positive : status < 2147483648
  pub time_set : 0 < at

-- A signal with the four properties of a finished main process is decoded to its exit.
pub service_exit_state_complete :
    (changed : Changed) (pid status si_code at : ℕ)
    → Tells changed pid status si_code at
    → service_exit_state changed
      ≡ some (record {
        exited_at = unix_micro at;
        exit_code = exit_status_for si_code status;
        pid = pid;
        status = "exited";
      })
unfolding service_exit_state
service_exit_state_complete changed pid status si_code at t = ground arith

exited-not_open : is_stopped (to_status "exited") ≡ true
unfolding to_status
exited-not_open = refl

-- A decoded exit is a terminal state with a process id: what `enqueueIfExit` records is an exit.
pub service_exit_state-exited :
    (changed : Changed) (st : PState)
    → service_exit_state changed ≡ some st
    → (has_exited st ≡ true) × (0 < st.pid)
unfolding service_exit_state has_exited
service_exit_state-exited changed st h = ground (arith, exited-not_open)

-- The two places where the shim learns an exit from systemd agree: for a main process that ended
-- with a status other than 0, the decoded signal and the targeted read have the same exit code, and
-- both are terminal.
pub sources_agree :
    (changed : Changed) (u : UnitProperties) (now pid status si_code at : ℕ)
    → Tells changed pid status si_code at
    → u.exec_main_code ≡ some si_code
    → u.exec_main_status ≡ some status
    → 0 < status
    → (seen read : PState) × (service_exit_state changed ≡ some seen)
      × (load_exit_from_unit now (some u) ≡ some read)
      × (seen.exit_code ≡ read.exit_code)
      × (has_exited seen ≡ true)
      × (has_exited read ≡ true)
sources_agree changed u now pid status si_code at t hc hs p =
    let told = service_exit_state_complete changed pid status si_code at t in
    let (read, loaded, same, ended, _) =
      load_exit_from_unit-main now u si_code status hc hs p t.status_positive in
    let seen : PState = record {
      exited_at = unix_micro at;
      exit_code = exit_status_for si_code status;
      pid = pid;
      status = "exited";
    } in
    (seen, read, told, loaded, sym same, (service_exit_state-exited changed seen told).0, ended)
