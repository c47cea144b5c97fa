-- ===== src/Wait.antt =====
-- wait.go: `waitForExit`. Other goroutines change the process while a wait sleeps: the wait is told by
-- what it sees each time round its loop.
use containerd_shim_systemd.Prelude.{
  ◌≡◌, ◌≢◌, ◌⊎◌, Bool, true, false, ◌||◌, List, [], ◌∷◌, if◌then◌else◌, arith,
}
use containerd_shim_systemd.Phase.{deleted, phase_eq}
use containerd_shim_systemd.State.{PState, has_exited}
use containerd_shim_systemd.Process.{Process, process_state}
use containerd_shim_systemd.Process.Observe.{exited-process_state}

-- One time round the loop: whether the context is done, and the process.
pub record Wake : Type 0 where
  pub is_cancelled : Bool
  pub process : Process

-- The first time round, of a process as it is.
abbrev pub looks_at : Bool → Process → List Wake → List Wake
looks_at is_done p ws = record { is_cancelled = is_done; process = p } ∷ ws

-- A wait that goes on, one that the context ends, and one that returns what it saw.
pub data Waited : Type 0 where
  waiting : Waited
  cancelled : Waited
  returned : (p : Process) (st : PState) → Waited

abbrev pub may_return : Process → Bool
may_return p = phase_eq p.phase deleted || has_exited p.state

unfoldable pub wait_for_exit : List Wake → Waited
wait_for_exit [] = waiting
wait_for_exit (w ∷ ws) =
    let later = wait_for_exit ws in
    if w.is_cancelled
    then cancelled
    else if may_return w.process
    then returned w.process (process_state w.process)
    else later

-- Some wake-up finds the process ended or deleted.
abbrev pub any_ended : List Wake → Bool
any_ended [] = false
any_ended (w ∷ ws) = may_return w.process || any_ended ws

-- A wait does not sleep through an exit: if it is woken once after the process has exited or was
-- deleted, it ends.
pub wait_ends : (ws : List Wake) → any_ended ws ≡ true → wait_for_exit ws ≢ waiting
unfolding wait_for_exit
wait_ends [] h = cc
wait_ends (w ∷ ws) h = λ e. ground (arith, wait_ends ws, e)

-- What a wait returns is what the process reports at that time, and it is terminal, unless the
-- process was deleted.
pub returned-exited :
    (ws : List Wake) (p : Process) (st : PState)
    → wait_for_exit ws ≡ returned p st
    → (st ≡ process_state p) × ((has_exited st ≡ true) ⊎ (p.phase ≡ deleted))
unfolding wait_for_exit
returned-exited [] p st e = absurd (cc)
returned-exited (w ∷ ws) p st e =
    ground (arith, returned-exited ws p st, exited-process_state w.process)
