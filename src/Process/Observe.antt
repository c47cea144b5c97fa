-- ===== src/Process/Observe.antt =====
-- process.go, `applyState` and `RecordSystemdExitState`: what the merged observations say.
use containerd_shim_systemd.Prelude.{
  ℕ, ◌≤◌, ◌<◌, ◌≡◌, refl, ◌∙◌, ap, inl, inr, Bool, true, false, String, List, [], ◌∷◌, arith,
}
use containerd_shim_systemd.Phase.{ProcPhase, running, can_become, phase_lt}
use containerd_shim_systemd.State.{PState, zero_state, has_exited, copy_to}
use containerd_shim_systemd.State.Time.{time_zero, after}
use containerd_shim_systemd.State.Status.{to_status, is_running}
use containerd_shim_systemd.State.Merge.{exited-copy_to, copy_to-kept, copy_to-status}
use containerd_shim_systemd.Process.{
  Process, new_process, advance, begin_start, abort_start, record_systemd_exit_state,
  clear_recorded_systemd_exit_state, mark_deleting, set_pid, process_state, observed, apply_state,
}
use containerd_shim_systemd.Process.Lifecycle.{
  apply_state_lem, exited-stamped, Step, begins, aborts, finishes, deletes, observes, records,
  clears, marks, sets_pid, sends, Reach, here, next,
}

-- What `applyState` does depends on the clock in no case, whatever process and state it is given.
pub apply_state-now :
    (now later : ℕ) (p : Process) (st : PState) → apply_state now p st ≡ apply_state later p st
unfolding apply_state
apply_state-now now later p st =
    let merged = copy_to (observed p.phase st) p.state in
    rw (exited-stamped now merged, exited-stamped later merged)

-- What a process reports is terminal exactly when its state is.
pub exited-process_state : (p : Process) → has_exited (process_state p) ≡ has_exited p.state
unfolding process_state
exited-process_state p = exited-copy_to p.state zero_state ∙ (unfold has_exited to_status in refl)

-- The exit code and the exit time that are known first are kept.
pub record IsKept (p q : Process) : Type 0 where
  pub code_kept : 0 < p.state.exit_code → q.state.exit_code ≡ p.state.exit_code
  pub time_kept : after p.state.exited_at time_zero ≡ true → q.state.exited_at ≡ p.state.exited_at

apply_state-IsKept : (now : ℕ) (p : Process) (st : PState) → IsKept p (apply_state now p st).0
apply_state-IsKept now p st =
    let merge = ap (λ (q : Process). q.state) (apply_state_lem now p st) in
    let kept = copy_to-kept (observed p.phase st) p.state in
    record {
      code_kept = λ h. ap (λ (s : PState). s.exit_code) merge ∙ kept.0 h;
      time_kept = λ h. ap (λ (s : PState). s.exited_at) merge ∙ kept.1 h;
    }

Step-IsKept : (p q : Process) → Step p q → IsKept p q
unfolding begin_start abort_start advance can_become record_systemd_exit_state
    clear_recorded_systemd_exit_state mark_deleting set_pid
Step-IsKept p q (begins e) = ground arith
Step-IsKept p q (aborts e) = ground arith
Step-IsKept p q (finishes e) = ground arith
Step-IsKept p q (deletes e) = ground arith
Step-IsKept p q (observes now st e) = rw e (apply_state-IsKept now p st)
Step-IsKept p q (records st e) = ground arith
Step-IsKept p q (clears e) = ground arith
Step-IsKept p q (marks e) = ground arith
Step-IsKept p q (sets_pid pid e) = ground arith
Step-IsKept p q (sends o e) = ground arith

-- Once a process has an exit code other than 0, it has that code for good, and once it has an exit
-- time after the epoch, that time: no later observation, by any path, puts another in its place.
pub Reach-IsKept : {p q : Process} → Reach p q → IsKept p q
Reach-IsKept here = record { code_kept = λ h. refl; time_kept = λ h. refl }
Reach-IsKept (next {q = m} {r = q} r st) = ground (arith, Reach-IsKept r, Step-IsKept m q st)

-- A process that has not finished starting is not reported as running.
abbrev pub NotEarly : Process → Type 0
NotEarly p = phase_lt p.phase running ≡ true → is_running (to_status p.state.status) ≡ false

observed-not_running :
    (phase : ProcPhase) (st : PState)
    → phase_lt phase running ≡ true
    → is_running (to_status (observed phase st).status) ≡ false
unfolding observed
observed-not_running phase st h = ground (arith, created-not_running)
  where
    created-not_running : is_running (to_status "created") ≡ false
    created-not_running = unfold to_status in refl

apply_state-NotEarly :
    (now : ℕ) (p : Process) (st : PState) → NotEarly p → NotEarly (apply_state now p st).0
apply_state-NotEarly now p st n early =
    let e = apply_state_lem now p st in
    let phase = ap (λ (q : Process). q.phase) e in
    let status = ap (λ (q : Process). q.state.status) e in
    let was : phase_lt p.phase running ≡ true = ground (arith, phase) in
    elim (copy_to-status (observed p.phase st) p.state) [
      | inl old ↦ rw (status ∙ old) (n was)
      | inr new ↦ rw (status ∙ new) (observed-not_running p.phase st was)
    ]

Step-NotEarly : (p q : Process) → Step p q → NotEarly p → NotEarly q
unfolding begin_start abort_start advance can_become record_systemd_exit_state
    clear_recorded_systemd_exit_state mark_deleting set_pid
Step-NotEarly p q (begins e) n = ground arith
Step-NotEarly p q (aborts e) n = ground arith
Step-NotEarly p q (finishes e) n = ground arith
Step-NotEarly p q (deletes e) n = ground arith
Step-NotEarly p q (observes now st e) n = rw e (apply_state-NotEarly now p st n)
Step-NotEarly p q (records st e) n = ground arith
Step-NotEarly p q (clears e) n = ground arith
Step-NotEarly p q (marks e) n = ground arith
Step-NotEarly p q (sets_pid pid e) n = ground arith
Step-NotEarly p q (sends o e) n = ground arith

Reach-NotEarly : {p q : Process} → Reach p q → NotEarly p → NotEarly q
Reach-NotEarly here n = n
Reach-NotEarly (next {q = m} {r = q} r st) n = Step-NotEarly m q st (Reach-NotEarly r n)

-- Whatever systemd says of the unit, a process whose start has not finished has no status that
-- containerd is told as running.
pub starting-not_running :
    (ns id path_name : String) (terminal : Bool) (p : Process)
    → Reach (new_process ns id path_name terminal) p
    → phase_lt p.phase running ≡ true
    → is_running (to_status p.state.status) ≡ false
starting-not_running ns id path_name terminal p r =
    Reach-NotEarly r (unfold new_process to_status in λ h. refl)

-- Recording terminal signals one after the other.
unfoldable pub record_all : Process → List PState → Process
record_all p [] = p
record_all p (st ∷ sts) = record_all (record_systemd_exit_state p st) sts

abbrev pub NoneLater : ℕ → List PState → Type 0
NoneLater t [] = Unit
NoneLater t (st ∷ sts) = (st.exited_at ≤ t) × NoneLater t sts

record_all-le :
    (p : Process) (sts : List PState)
    → p.has_systemd_exit_state ≡ true
    → let q = record_all p sts in
      (q.has_systemd_exit_state ≡ true)
      × (p.systemd_exit_state.exited_at ≤ q.systemd_exit_state.exited_at)
      × NoneLater q.systemd_exit_state.exited_at sts
unfolding record_all record_systemd_exit_state
record_all-le p [] h = (h, omega arith, tt)
record_all-le p (st ∷ sts) h =
    let p' = record_systemd_exit_state p st in
    let ok : p'.has_systemd_exit_state ≡ true = ground arith in
    let (still, le, rest) = record_all-le p' sts ok in
    (still, ground (arith, le), (ground (arith, le), rest))

-- Of several terminal signals of one unit the one with the latest exit time is kept, in whatever
-- order they arrive.
pub record_all-latest :
    (p : Process) (st : PState) (sts : List PState)
    → p.has_systemd_exit_state ≡ false
    → let q = record_all p (st ∷ sts) in
      (q.has_systemd_exit_state ≡ true) × NoneLater q.systemd_exit_state.exited_at (st ∷ sts)
unfolding record_all record_systemd_exit_state
record_all-latest p st sts h =
    let p' = record_systemd_exit_state p st in
    let ok : p'.has_systemd_exit_state ≡ true = ground arith in
    let (still, le, rest) = record_all-le p' sts ok in (still, (ground (arith, le), rest))
