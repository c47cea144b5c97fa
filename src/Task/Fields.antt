-- ===== src/Task/Fields.antt =====
-- process.go, state.go: what `SetState`, `LoadState` and `LoadExitState` leave of a process's guarded
-- fields.
use containerd_shim_systemd.Prelude.{
  ℕ, ◌≡◌, refl, true, ◌&&◌, arith, Bool-cases, Option-cases, inl, inr, if◌then◌else◌, ltb, ◌==◌,
  str_eq,
}
use containerd_shim_systemd.State.{PState, has_exited}
use containerd_shim_systemd.State.Unit.{get_unit_state}
use containerd_shim_systemd.State.Merge.{exited-copy_to}
use containerd_shim_systemd.Process.{
  Process, apply_state, observed, process_state, load_recorded_systemd_exit_state,
}
use containerd_shim_systemd.Process.Lifecycle.{apply_state_lem, exited-observed}
use containerd_shim_systemd.Process.Observe.{exited-process_state}
use containerd_shim_systemd.Outside.{Outside, init_exit_status, exec_exit_status}
use containerd_shim_systemd.Task.{
  ExecProcess, InitProcess, Shim, publish, set_state_exec, load_state_exec, set_state_init,
  load_state_init, load_init_file, load_init_unit, reset_state, finish_exit, load_exit_state_exec,
  load_exit_state_init, init_name,
}

-- The recorded exit of two processes is the same.
pub record SameRecord (p q : Process) : Type 0 where
  pub state_is : q.systemd_exit_state ≡ p.systemd_exit_state
  pub has_is : q.has_systemd_exit_state ≡ p.has_systemd_exit_state

pub SameRecord-refl : (p : Process) → SameRecord p p
SameRecord-refl p = record { state_is = refl; has_is = refl }

apply_state-SameRecord :
    (now : ℕ) (p : Process) (st : PState) → SameRecord p (apply_state now p st).0
apply_state-SameRecord now p st =
    rw (apply_state_lem now p st) (record { state_is = refl; has_is = refl })

-- A merged state is terminal if the observation is.
apply_state-exited :
    (now : ℕ) (p : Process) (st : PState)
    → has_exited st ≡ true
    → has_exited (apply_state now p st).0.state ≡ true
apply_state-exited now p st h =
    rw (apply_state_lem now p st)
      (ground (arith, exited-copy_to (observed p.phase st) p.state, exited-observed p.phase st))

module _ (o : Outside) where
  open o use {World, now, read_state_file, get_all}

  set_state_exec-SameRecord :
      (s : Shim World) (p : ExecProcess) (st : PState)
      → SameRecord p.process (set_state_exec o s p st).1.process
  unfolding set_state_exec publish
  set_state_exec-SameRecord s p st =
      ground (arith, apply_state-SameRecord (now s.world) p.process st)

  set_state_exec-exited :
      (s : Shim World) (p : ExecProcess) (st : PState)
      → has_exited st ≡ true
      → has_exited (set_state_exec o s p st).1.process.state ≡ true
  unfolding set_state_exec publish
  set_state_exec-exited s p st h = ground (arith, apply_state-exited (now s.world) p.process st h)

  set_state_init-SameRecord :
      (s : Shim World) (p : InitProcess) (st : PState)
      → SameRecord p.process (set_state_init o s p st).1.process
  unfolding set_state_init finish_exit publish
  set_state_init-SameRecord s p st =
      ground (arith, apply_state-SameRecord (now s.world) p.process st)

  pub set_state_init-exited :
      (s : Shim World) (p : InitProcess) (st : PState)
      → has_exited st ≡ true
      → has_exited (set_state_init o s p st).1.process.state ≡ true
  unfolding set_state_init finish_exit publish
  set_state_init-exited s p st h = ground (arith, apply_state-exited (now s.world) p.process st h)

  pub load_state_exec-SameRecord :
      (s : Shim World) (p : ExecProcess) → SameRecord p.process (load_state_exec o s p).1.process
  unfolding load_state_exec
  load_state_exec-SameRecord s p =
      let (file, w) = read_state_file s.world (exec_exit_status p.bundle p.exec_id) in
      elim (Option-cases file) [
        | inl e ↦ rw (e, load_state_exec) (SameRecord-refl p.process)
        | inr (st, e) ↦
            rw (e, load_state_exec) (set_state_exec-SameRecord (record s { world = w }) p st)
      ]

  load_init_file-SameRecord :
      (s : Shim World) (p : InitProcess) (st : PState)
      → SameRecord p.process (load_init_file o s p st).1.process
  unfolding load_init_file
  load_init_file-SameRecord s p st =
      set_state_init-SameRecord s p
        (if ltb 0 st.pid && str_eq st.status "" then record st { status = "running" } else st)

  load_init_unit-SameRecord :
      (s : Shim World) (p : InitProcess) → SameRecord p.process (load_init_unit o s p).1.process
  unfolding load_init_unit
  load_init_unit-SameRecord s p =
      let (props, w) = get_all s.world (init_name p) in
      let (st, ok) = get_unit_state props reset_state in
      elim (Bool-cases ok) [
        | inl e ↦ rw (e, load_init_unit) (set_state_init-SameRecord (record s { world = w }) p st)
        | inr e ↦ rw (e, load_init_unit) (SameRecord-refl p.process)
      ]

  pub load_state_init-SameRecord :
      (s : Shim World) (p : InitProcess) → SameRecord p.process (load_state_init o s p).1.process
  unfolding load_state_init
  load_state_init-SameRecord s p =
      let (file, w) = read_state_file s.world (init_exit_status p.bundle) in
      let s' = record s { world = w } in
      elim (Option-cases file) [
        | inr (st, e) ↦ rw (e, load_state_init) (load_init_file-SameRecord s' p st)
        | inl e ↦ elim (Bool-cases (p.process.state.pid == 0)) [
          | inl none_yet ↦ rw (e, load_state_init) (ground (arith, none_yet))
          | inr has_pid ↦
              rw (e, load_state_init) (ground (arith, has_pid, load_init_unit-SameRecord s' p))
        ]
      ]

  -- For an exec whose recorded exit is terminal, `LoadExitState` succeeds whatever the outside world
  -- answers, and the exec has exited after it.
  pub load_exit_state_exec-recorded :
      (s : Shim World) (p : ExecProcess)
      → p.process.has_systemd_exit_state ≡ true
      → has_exited p.process.systemd_exit_state ≡ true
      → let r = load_exit_state_exec o s p in
        (r.2 ≡ true) × (has_exited (process_state r.1.process) ≡ true)
  unfolding load_exit_state_exec load_recorded_systemd_exit_state
  load_exit_state_exec-recorded s p h e =
      let q = (set_state_exec o s p p.process.systemd_exit_state).1 in
      let ended = set_state_exec-exited s p p.process.systemd_exit_state e in
      ground (arith, ended, exited-process_state q.process)

  -- For a container whose recorded exit is terminal, `LoadExitState` succeeds whatever the outside
  -- world answers, and its init process has exited after it.
  pub load_exit_state_init-recorded :
      (s : Shim World) (p : InitProcess)
      → p.process.has_systemd_exit_state ≡ true
      → has_exited p.process.systemd_exit_state ≡ true
      → let r = load_exit_state_init o s p in
        (r.2 ≡ true) × (has_exited (process_state r.1.process) ≡ true)
  unfolding load_exit_state_init load_recorded_systemd_exit_state
  load_exit_state_init-recorded s p h e =
      let q = (set_state_init o s p p.process.systemd_exit_state).1 in
      let ended = set_state_init-exited s p p.process.systemd_exit_state e in
      ground (arith, ended, exited-process_state q.process)
