-- ===== src/Process.antt =====
-- process.go: the part of a process that its lock guards. Each of these methods holds the lock for
-- all of its body, so each is one step.
pub mod Lifecycle
pub mod Exit
pub mod Observe
use containerd_shim_systemd.Prelude.{
  ℕ, Bool, true, false, ◌||◌, ◌&&◌, not, String, Option, none, some, if◌then◌else◌, ltb,
}
use containerd_shim_systemd.Phase.{
  ProcPhase, created, starting, running, exited, deleted, phase_eq, phase_lt, can_become,
  InvalidTransitionError,
}
use containerd_shim_systemd.State.{PState, zero_state, reset, has_exited, copy_to}
use containerd_shim_systemd.State.Time.{after}
use containerd_shim_systemd.State.Status.{to_status, is_running}
use containerd_shim_systemd.Outbox.{Outbox, new_event_outbox}

pub record Process : Type 0 where
  pub ns : String
  pub id : String
  pub path_name : String
  pub terminal : Bool
  pub phase : ProcPhase
  pub state : PState
  pub deleting : Bool
  pub events : Outbox
  pub systemd_exit_state : PState
  pub has_systemd_exit_state : Bool

-- The process that Create and Exec register: the zero value of every guarded field.
unfoldable pub new_process : String → String → String → Bool → Process
new_process ns id path_name terminal = record {
  ns = ns;
  id = id;
  path_name = path_name;
  terminal = terminal;
  phase = created;
  state = zero_state;
  deleting = false;
  events = new_event_outbox ns;
  systemd_exit_state = zero_state;
  has_systemd_exit_state = false;
}

-- `advanceLocked`: the process, whether the phase changed, and the error.
unfoldable pub advance_locked : Process → ProcPhase → Process × Bool × Option InvalidTransitionError
advance_locked p next =
    if not (can_become p.phase next)
    then (p, false, some (record { from = p.phase; to = next }))
    else if phase_eq p.phase next
    then (p, false, none)
    else (record p { phase = next }, true, none)

-- `advance`: the same under the lock, and a broadcast, which changes no state.
unfoldable pub advance : Process → ProcPhase → Process × Bool × Option InvalidTransitionError
unfolding advance_locked
advance p next = advance_locked p next

unfoldable pub begin_start : Process → Process × Option InvalidTransitionError
unfolding advance
begin_start p = let (p', changed, err) = advance p starting in (p', err)

unfoldable pub abort_start : Process → Process
unfolding advance
abort_start p = (advance p created).0

unfoldable pub record_systemd_exit_state : Process → PState → Process
record_systemd_exit_state p state =
    if not p.has_systemd_exit_state || after state.exited_at p.systemd_exit_state.exited_at
    then record p { systemd_exit_state = state; has_systemd_exit_state = true }
    else p

unfoldable pub clear_recorded_systemd_exit_state : Process → Process
clear_recorded_systemd_exit_state p = record p {
  systemd_exit_state = reset p.systemd_exit_state;
  has_systemd_exit_state = false;
}

unfoldable pub load_recorded_systemd_exit_state : Process → PState × Bool
load_recorded_systemd_exit_state p = (p.systemd_exit_state, p.has_systemd_exit_state)

unfoldable pub process_state : Process → PState
process_state p = copy_to p.state zero_state

unfoldable pub mark_deleting : Process → Process
mark_deleting p = record p { deleting = true }

-- `p.state.Pid = pid`, under the lock (start.go, create.go).
unfoldable pub set_pid : Process → ℕ → Process
set_pid p pid = record p { state = record (p.state) { pid = pid } }

pub record StateUpdate : Type 0 where
  pub state : PState
  pub from : ProcPhase
  pub to : ProcPhase

unfoldable pub just_exited : StateUpdate → Bool
just_exited u = phase_eq u.to exited && not (phase_eq u.from u.to)

unfoldable pub was_running : StateUpdate → Bool
was_running u = phase_eq u.from running

-- What `applyState` makes of an observation before it merges it.
unfoldable pub observed : ProcPhase → PState → PState
observed phase state =
    if phase_lt phase running && is_running (to_status state.status)
    then record state { status = "created" }
    else state

-- The exit time that `applyState` means to fill in; `now` is `time.Now()`.
pub stamped : ℕ → PState → PState
stamped now state =
    if ltb 0 state.exit_code && not (has_exited state)
    then record state { exited_at = now }
    else state

-- The transition that a terminal state causes; a rejected one is only logged.
exit_if_terminal : Process → Process
unfolding advance_locked
exit_if_terminal p = if has_exited p.state then (advance_locked p exited).0 else p

unfoldable pub apply_state : ℕ → Process → PState → Process × StateUpdate
unfolding observed stamped exit_if_terminal
apply_state now p state =
    let seen = observed p.phase state in
    let p' = exit_if_terminal (record p { state = stamped now (copy_to seen p.state) }) in
    (p', record { state = copy_to p'.state seen; from = p.phase; to = p'.phase })
