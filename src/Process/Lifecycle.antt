-- ===== src/Process/Lifecycle.antt =====
-- phase.go and process.go: the phases that a process can go through, over any interleaving of the
-- locked methods.
use containerd_shim_systemd.Prelude.{ℕ, ◌≡◌, ◌≢◌, refl, Bool, true, false, ◌||◌, String, arith}
use containerd_shim_systemd.Phase.{
  ProcPhase, created, starting, running, exited, deleted, can_become,
}
use containerd_shim_systemd.State.{PState, has_exited, copy_to}
use containerd_shim_systemd.State.Status.{to_status, is_stopped}
use containerd_shim_systemd.State.Merge.{exited-copy_to}
use containerd_shim_systemd.Outbox.{Outbox}
use containerd_shim_systemd.Process.{
  Process, new_process, advance, begin_start, abort_start, record_systemd_exit_state,
  clear_recorded_systemd_exit_state, mark_deleting, set_pid, observed, stamped, exit_if_terminal,
  apply_state,
}

-- `created` is how a process that reports running is taken while it is starting.
created-not_stopped : is_stopped (to_status "created") ≡ false
unfolding to_status
created-not_stopped = refl

pub exited-observed :
    (phase : ProcPhase) (st : PState) → has_exited (observed phase st) ≡ has_exited st
unfolding observed has_exited
exited-observed phase st = ground (arith, created-not_stopped)

pub exited-stamped : (now : ℕ) (st : PState) → stamped now st ≡ st
unfolding stamped has_exited
exited-stamped now st = ground arith

-- The phase after an observation: `exited` is where a terminal one leads, but from `deleted`.
abbrev pub phase_after : Bool → ProcPhase → ProcPhase
phase_after true deleted = deleted
phase_after true p = exited
phase_after false p = p

exit_if_terminal-phase :
    (p : Process)
    → exit_if_terminal p ≡ record p { phase = phase_after (has_exited p.state) p.phase }
unfolding exit_if_terminal can_become
exit_if_terminal-phase p = ground arith

-- `applyState` in one equation: it merges the observation and moves the phase, and `now` has no part
-- in it.
pub apply_state_lem :
    (now : ℕ) (p : Process) (st : PState)
    → (apply_state now p st).0 ≡ record p {
      state = copy_to (observed p.phase st) p.state;
      phase = phase_after (has_exited p.state || has_exited st) p.phase;
    }
unfolding apply_state
apply_state_lem now p st =
    let merged = copy_to (observed p.phase st) p.state in
    rw (exited-stamped now merged, exit_if_terminal-phase (record p { state = merged }))
      (ground (arith, exited-copy_to (observed p.phase st) p.state, exited-observed p.phase st))

-- The phases that `applyState` reports.
pub apply_state-phases :
    (now : ℕ) (p : Process) (st : PState)
    → let r = apply_state now p st in (r.1.from ≡ p.phase) × (r.1.to ≡ r.0.phase)
unfolding apply_state
apply_state-phases now p st = (refl, refl)

-- The workload has ended, or its process is deleted.
abbrev pub is_past : ProcPhase → Bool
is_past exited = true
is_past deleted = true
is_past _ = false

-- One call of a locked method, by any goroutine. `finishes` and `deletes` are the moves to running and
-- to deleted that `finishStart` and `finishDelete` make.
pub data Step (p q : Process) : Type 0 where
  begins : q ≡ (begin_start p).0 → Step p q
  aborts : q ≡ abort_start p → Step p q
  finishes : q ≡ (advance p running).0 → Step p q
  deletes : q ≡ (advance p deleted).0 → Step p q
  observes : (now : ℕ) (st : PState) → q ≡ (apply_state now p st).0 → Step p q
  records : (st : PState) → q ≡ record_systemd_exit_state p st → Step p q
  clears : q ≡ clear_recorded_systemd_exit_state p → Step p q
  marks : q ≡ mark_deleting p → Step p q
  sets_pid : (pid : ℕ) → q ≡ set_pid p pid → Step p q
  sends : (o : Outbox) → q ≡ record p { events = o } → Step p q

pub data Reach (p : Process) : Process → Type 0 where
  here : Reach p p
  next : {q r : Process} → Reach p q → Step q r → Reach p r

-- The state is terminal just when the phase says that the workload has ended; a process can be
-- deleted with no exit.
pub record IsConsistent (p : Process) : Type 0 where
  pub terminal_past : has_exited p.state ≡ true → is_past p.phase ≡ true
  pub exited_terminal : p.phase ≡ exited → has_exited p.state ≡ true

advance-IsConsistent :
    (p : Process) (to : ProcPhase) → to ≢ exited → IsConsistent p → IsConsistent (advance p to).0
unfolding advance can_become
advance-IsConsistent p created n c = ground arith
advance-IsConsistent p starting n c = ground arith
advance-IsConsistent p running n c = ground arith
advance-IsConsistent p exited n c = absurd (n refl)
advance-IsConsistent p deleted n c = ground arith

apply_state-IsConsistent :
    (now : ℕ) (p : Process) (st : PState) → IsConsistent p → IsConsistent (apply_state now p st).0
apply_state-IsConsistent now p st c =
    rw (apply_state_lem now p st)
      (ground (arith, exited-copy_to (observed p.phase st) p.state, exited-observed p.phase st))

set_pid-IsConsistent : (p : Process) (pid : ℕ) → IsConsistent p → IsConsistent (set_pid p pid)
unfolding set_pid has_exited
set_pid-IsConsistent p pid c = record {
  terminal_past = c.terminal_past;
  exited_terminal = c.exited_terminal;
}

Step-IsConsistent : (p q : Process) → Step p q → IsConsistent p → IsConsistent q
unfolding begin_start abort_start record_systemd_exit_state clear_recorded_systemd_exit_state
    mark_deleting
Step-IsConsistent p q (begins e) c = rw e (advance-IsConsistent p starting (λ h. cc) c)
Step-IsConsistent p q (aborts e) c = rw e (advance-IsConsistent p created (λ h. cc) c)
Step-IsConsistent p q (finishes e) c = rw e (advance-IsConsistent p running (λ h. cc) c)
Step-IsConsistent p q (deletes e) c = rw e (advance-IsConsistent p deleted (λ h. cc) c)
Step-IsConsistent p q (observes now st e) c = rw e (apply_state-IsConsistent now p st c)
Step-IsConsistent p q (records st e) c = ground arith
Step-IsConsistent p q (clears e) c = ground arith
Step-IsConsistent p q (marks e) c = ground arith
Step-IsConsistent p q (sets_pid pid e) c = rw e (set_pid-IsConsistent p pid c)
Step-IsConsistent p q (sends o e) c = ground arith

Reach-IsConsistent : {p q : Process} → Reach p q → IsConsistent p → IsConsistent q
Reach-IsConsistent here c = c
Reach-IsConsistent (next {q} {r} s st) c = Step-IsConsistent q r st (Reach-IsConsistent s c)

new-IsConsistent :
    (ns id path_name : String) (terminal : Bool)
    → IsConsistent (new_process ns id path_name terminal)
unfolding new_process has_exited to_status
new-IsConsistent ns id path_name terminal = record {
  terminal_past = λ h. cc;
  exited_terminal = λ h. cc;
}

-- From its registration on, whatever the goroutines of the shim do to a process, its state is
-- terminal only in the phases exited and deleted, and always in the phase exited.
pub reachable-IsConsistent :
    (ns id path_name : String) (terminal : Bool) (p : Process)
    → Reach (new_process ns id path_name terminal) p
    → IsConsistent p
reachable-IsConsistent ns id path_name terminal p r =
    Reach-IsConsistent r (new-IsConsistent ns id path_name terminal)
