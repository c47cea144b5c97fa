-- ===== src/Teardown/Released.antt =====
-- delete.go: a teardown asks for the release of the reference to its unit.
use containerd_shim_systemd.Prelude.{
  ◌≡◌, refl, ◌⊎◌, inl, inr, Bool, true, String, List, [], ◌∷◌, ◌++◌, Option, none, some, arith,
  Bool-cases, Option-cases, ltb, not, subst, ◌&&◌, ◌==◌,
}
use containerd_shim_systemd.State.{PState, has_exited, zero_state}
use containerd_shim_systemd.State.Unit.{load_exit_from_unit}
use containerd_shim_systemd.Process.Lifecycle.{apply_state_lem}
use containerd_shim_systemd.Process.{Process, mark_deleting, process_state}
use containerd_shim_systemd.Outside.{Outside, Call, unrefs}
use containerd_shim_systemd.Task.{
  ExecProcess, InitProcess, exec_name, init_name, Shim, set_state_init, finish_exit, publish,
}
use containerd_shim_systemd.Wait.{
  Wake, Waited, looks_at, wait_for_exit, waiting, cancelled, returned,
}
use containerd_shim_systemd.Teardown.{
  found_as, Outcome, failed_precondition, failed, blocked, release_unit, delete_fails,
  delete_init_ends, delete_init_waits, tear_down_init, delete_init, delete_exec_ends,
  tear_down_exec, delete_exec_waits, delete_exec, stop_and_kill, delete_in_runc,
}

abbrev pub last_call : List Call → Option Call
last_call [] = none
last_call (c ∷ []) = some c
last_call (c ∷ d ∷ cs) = last_call (d ∷ cs)

last_call-append : (cs : List Call) (c : Call) → last_call (cs ++ c ∷ []) ≡ some c
last_call-append [] c = refl
last_call-append (d ∷ []) c = refl
last_call-append (d ∷ e ∷ cs) c = last_call-append (e ∷ cs) c

Waited-cases :
    (w : Waited)
    → (w ≡ waiting) ⊎ ((w ≡ cancelled) ⊎ ((p : Process) × (st : PState) × (w ≡ returned p st)))
Waited-cases waiting = inl refl
Waited-cases cancelled = inr (inl refl)
Waited-cases (returned p st) = inr (inr (p, st, refl))

-- A request that was refused or waits, or one whose last call is the release of the reference.
abbrev pub IsReleased : {W : Type 0} → String → Shim W → Outcome PState → Type 0
IsReleased name s out =
    (out ≡ failed_precondition)
    ⊎ ((out ≡ blocked) ⊎ ((released : Bool) × (last_call s.calls ≡ some (unrefs name released))))

module _ (o : Outside) where
  open o use {World, unref_unit, pinned, ctx_done, get_all, now}

  release_unit-last :
      (s : Shim World) (name : String)
      → pinned ≡ true
      → (released : Bool) × (last_call (release_unit o s name).calls ≡ some (unrefs name released))
  unfolding release_unit
  release_unit-last s name h =
      let released = (unref_unit s.world name).0 in
      (released, rw (h, release_unit) (last_call-append s.calls (unrefs name released)))

  init_ends-IsReleased :
      (s : Shim World) (p : InitProcess) (ps : PState)
      → pinned ≡ true
      → let r = delete_init_ends o s p ps in IsReleased (init_name p) r.0 r.2
  unfolding delete_init_ends
  init_ends-IsReleased s p ps h = inr (inr (release_unit-last _ (init_name p) h))

  fails-IsReleased :
      (s : Shim World) (p : InitProcess) (root : String)
      → pinned ≡ true
      → IsReleased (init_name p) (delete_fails o s p root) failed
  unfolding delete_fails
  fails-IsReleased s p root h = inr (inr (release_unit-last _ (init_name p) h))

  waits-IsReleased :
      (wakes : List Wake) (s : Shim World) (p : InitProcess)
      → pinned ≡ true
      → let r = delete_init_waits o wakes s p in IsReleased (init_name p) r.0 r.2
  unfolding delete_init_waits found_as init_name
  waits-IsReleased wakes s p h =
      elim (Waited-cases (wait_for_exit (looks_at (ctx_done s.world) p.process wakes))) [
        | inl e ↦ rw (e, delete_init_waits) (inr (inl refl))
        | inr (inl e) ↦ rw (e, delete_init_waits) (fails-IsReleased s p p.bundle h)
        | inr (inr (q, st, e)) ↦
            rw (e, delete_init_waits)
              (init_ends-IsReleased s (record p { process = found_as p.process q }) st h)
      ]

  init-IsReleased :
      (wakes : List Wake) (s : Shim World) (p : InitProcess)
      → pinned ≡ true
      → let r = tear_down_init o wakes s p in IsReleased (init_name p) r.0 r.2
  unfolding tear_down_init mark_deleting init_name
  init-IsReleased wakes s p h =
      let (s', gone) = delete_in_runc o (stop_and_kill o s (init_name p)) p.process.id in
      let marked = record p { process = mark_deleting p.process } in
      elim (Bool-cases gone) [
        | inr e ↦ rw (e, tear_down_init) (fails-IsReleased s' marked p.bundle h)
        | inl e ↦ elim (Bool-cases (ltb 0 p.process.state.pid)) [
          | inl has_pid ↦ rw (e, has_pid, tear_down_init) (waits-IsReleased wakes s' marked h)
          | inr no_pid ↦
              rw (e, no_pid, tear_down_init) (init_ends-IsReleased s' marked zero_state h)
        ]
      ]

  set_state_init-name :
      (s : Shim World) (p : InitProcess) (st : PState)
      → let q = (set_state_init o s p st).1.process in (q.ns ≡ p.process.ns) × (q.id ≡ p.process.id)
  unfolding set_state_init finish_exit publish
  set_state_init-name s p st = ground (arith, apply_state_lem (now s.world) p.process st)

  -- With a message bus, a `Delete` of a container that does not refuse and does not wait for ever
  -- has as its last call the release of the unit's reference, whatever fails on the way and whether or
  -- not systemd carries the release out.
  pub delete_init-IsReleased :
      (wakes : List Wake) (s : Shim World) (p : InitProcess)
      → pinned ≡ true
      → let r = delete_init o wakes s p in IsReleased (init_name p) r.0 r.2
  unfolding delete_init init_name
  delete_init-IsReleased wakes s p h =
      let (props, w) = get_all s.world (init_name p) in
      let s' = record s { world = w } in
      elim (Bool-cases (has_exited (process_state p.process))) [
        | inl e ↦ rw (e, delete_init) (init-IsReleased wakes s p h)
        | inr e ↦ elim (Option-cases (load_exit_from_unit (now w) props)) [
          | inl none_read ↦ rw (e, none_read, delete_init) (init-IsReleased wakes s' p h)
          | inr (st, read) ↦ elim (Bool-cases (has_exited st)) [
            | inr up ↦ rw (e, read, up, delete_init) (inl refl)
            | inl gone ↦
                let (s'', p', merged) = set_state_init o s' p st in
                let (n, i) = set_state_init-name s' p st in
                let done = init-IsReleased wakes s'' p' h in
                let same : init_name p' ≡ init_name p = rw (n, i) refl in
                rw (e, read, gone, delete_init)
                  (subst (λ name. let r = tear_down_init o wakes s'' p' in IsReleased name r.0 r.2)
                    same done)
          ]
        ]
      ]

  exec_ends-IsReleased :
      (s : Shim World) (p : ExecProcess) (ps : PState)
      → pinned ≡ true
      → let r = delete_exec_ends o s p ps in IsReleased (exec_name p) r.0 r.2
  unfolding delete_exec_ends
  exec_ends-IsReleased s p ps h = inr (inr (release_unit-last _ (exec_name p) h))

  exec_waits-IsReleased :
      (wakes : List Wake) (s : Shim World) (p : ExecProcess)
      → pinned ≡ true
      → let r = delete_exec_waits o wakes s p in IsReleased (exec_name p) r.0 r.2
  unfolding delete_exec_waits found_as exec_name
  exec_waits-IsReleased wakes s p h =
      elim (Waited-cases (wait_for_exit (looks_at (ctx_done s.world) p.process wakes))) [
        | inl e ↦ rw (e, delete_exec_waits) (inr (inl refl))
        | inr (inl e) ↦ rw (e, delete_exec_waits) (inr (inr (release_unit-last s (exec_name p) h)))
        | inr (inr (q, st, e)) ↦
            rw (e, delete_exec_waits)
              (exec_ends-IsReleased s (record p { process = found_as p.process q }) st h)
      ]

  exec-IsReleased :
      (wakes : List Wake) (s : Shim World) (p : ExecProcess)
      → pinned ≡ true
      → let r = tear_down_exec o wakes s p in IsReleased (exec_name p) r.0 r.2
  unfolding tear_down_exec mark_deleting exec_name
  exec-IsReleased wakes s p h =
      let marked = record p { process = mark_deleting p.process } in
      elim (Bool-cases (ltb 0 p.process.state.pid)) [
        | inr no_pid ↦ rw (no_pid, tear_down_exec) (exec_ends-IsReleased _ marked zero_state h)
        | inl has_pid ↦ rw (has_pid, tear_down_exec) (exec_waits-IsReleased wakes _ marked h)
      ]

  -- With a message bus, a `Delete` of an exec that does not refuse and does not wait for ever has as
  -- its last call the release of the unit's reference, whether or not systemd carries it out.
  pub delete_exec-IsReleased :
      (wakes : List Wake) (s : Shim World) (parent : Process) (p : ExecProcess)
      → pinned ≡ true
      → let r = delete_exec o wakes s parent p in IsReleased (exec_name p) r.0 r.2
  unfolding delete_exec
  delete_exec-IsReleased wakes s parent p h =
      let running_on =
        not (p.process.state.pid == 0)
        && (not (has_exited (process_state p.process))
            && not (has_exited (process_state parent))) in
      elim (Bool-cases running_on) [
        | inl e ↦ rw (e, delete_exec) (inl refl)
        | inr e ↦ rw (e, delete_exec) (exec-IsReleased wakes s p h)
      ]
