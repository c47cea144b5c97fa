-- ===== src/Task/Calls.antt =====
-- process.go and state.go: the observation of a process asks nothing of systemd or of runc that is logged.
use containerd_shim_systemd.Prelude.{
  ◌≡◌, refl, ◌∙◌, inl, inr, Bool, String, List, [], ◌∷◌, arith, Bool-cases, Option-cases, str_eq,
  ◌&&◌, ◌==◌, not,
}
use containerd_shim_systemd.Phase.{phase_lt, running}
use containerd_shim_systemd.State.{PState, has_exited}
use containerd_shim_systemd.State.Status.{exited_init}
use containerd_shim_systemd.State.Unit.{get_unit_state}
use containerd_shim_systemd.Process.{apply_state, just_exited, was_running, process_state}
use containerd_shim_systemd.Outside.{Outside, init_exit_status, exec_exit_status}
use containerd_shim_systemd.Task.{
  ExecProcess, InitProcess, Shim, init_name, publish, reaped, reset_state, set_state_exec,
  load_state_exec, reap_exec, reap_execs, kill_children, finish_exit, set_state_init,
  load_init_file, load_init_unit, load_state_init,
}

module _ (o : Outside) where
  open o use {World, now, read_state_file, get_all}

  set_state_exec-calls :
      (s : Shim World) (p : ExecProcess) (st : PState) → (set_state_exec o s p st).0.calls ≡ s.calls
  unfolding set_state_exec publish
  set_state_exec-calls s p st =
      elim (Bool-cases (just_exited (apply_state (now s.world) p.process st).1)) [
        | inl e ↦ rw (e, set_state_exec) refl
        | inr e ↦ rw (e, set_state_exec) refl
      ]

  load_state_exec-calls :
      (s : Shim World) (p : ExecProcess) → (load_state_exec o s p).0.calls ≡ s.calls
  unfolding load_state_exec
  load_state_exec-calls s p =
      let (file, w) = read_state_file s.world (exec_exit_status p.bundle p.exec_id) in
      elim (Option-cases file) [
        | inl e ↦ rw (e, load_state_exec) refl
        | inr (st, e) ↦ rw (e, load_state_exec) (set_state_exec-calls (record s { world = w }) p st)
      ]

  reap_exec-calls : (s : Shim World) (p : ExecProcess) → (reap_exec o s p).0.calls ≡ s.calls
  unfolding reap_exec
  reap_exec-calls s p =
      let (s', p') = load_state_exec o s p in
      let loads = load_state_exec-calls s p in
      elim (Bool-cases (phase_lt p'.process.phase running)) [
        | inl a ↦ rw (a, reap_exec) loads
        | inr a ↦ elim (Bool-cases (has_exited (process_state p'.process))) [
          | inl b ↦ rw (a, b, reap_exec) loads
          | inr b ↦
              rw (a, b, reap_exec) (set_state_exec-calls s' p' (reaped (now s'.world)) ∙ loads)
        ]
      ]

  reap_execs-calls :
      (s : Shim World) (es : List (String × ExecProcess)) → (reap_execs o s es).0.calls ≡ s.calls
  unfolding reap_execs
  reap_execs-calls s [] = refl
  reap_execs-calls s ((k, p) ∷ es) = reap_execs-calls (reap_exec o s p).0 es ∙ reap_exec-calls s p

  finish_exit-calls :
      (s : Shim World) (p : InitProcess) (st : PState) (kill : Bool)
      → (finish_exit o s p st kill).0.calls ≡ s.calls
  unfolding finish_exit kill_children publish
  finish_exit-calls s p st kill =
      let reaps = reap_execs-calls (kill_children o s p kill) p.execs in
      let killed : (kill_children o s p kill).calls ≡ s.calls = ground arith in
      elim (Bool-cases (str_eq st.status exited_init)) [
        | inl e ↦ rw (e, finish_exit) (reaps ∙ killed)
        | inr e ↦ rw (e, finish_exit) (reaps ∙ killed)
      ]

  set_state_init-calls :
      (s : Shim World) (p : InitProcess) (st : PState) → (set_state_init o s p st).0.calls ≡ s.calls
  unfolding set_state_init
  set_state_init-calls s p st =
      let (q, u) = apply_state (now s.world) p.process st in
      let kill = not (str_eq u.state.status exited_init) && (was_running u && p.kill_all_on_exit) in
      elim (Bool-cases (just_exited u)) [
        | inl e ↦
            rw (e, set_state_init) (finish_exit-calls s (record p { process = q }) u.state kill)
        | inr e ↦ rw (e, set_state_init) refl
      ]

  -- `LoadState` of a container leaves the calls as they are.
  pub load_state_init-calls :
      (s : Shim World) (p : InitProcess) → (load_state_init o s p).0.calls ≡ s.calls
  unfolding load_state_init load_init_file load_init_unit
  load_state_init-calls s p =
      let (file, w) = read_state_file s.world (init_exit_status p.bundle) in
      let s' = record s { world = w } in
      let (props, w') = get_all w (init_name p) in
      let (st', ok) = get_unit_state props reset_state in
      elim (Option-cases file) [
        | inr (st, e) ↦ rw (e, load_state_init) (set_state_init-calls s' p _)
        | inl e ↦ elim (Bool-cases (p.process.state.pid == 0)) [
          | inl idle ↦ rw (e, idle, load_state_init) refl
          | inr runs ↦ elim (Bool-cases ok) [
            | inl read ↦
                rw (e, runs, read, load_state_init, load_init_unit)
                  (set_state_init-calls (record s { world = w' }) p st')
            | inr unread ↦ rw (e, runs, unread, load_state_init, load_init_unit) refl
          ]
        ]
      ]
