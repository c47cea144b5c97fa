-- ===== src/Startup/Container/Alive.antt =====
-- start.go: a start of a container that fails leaves a process that has exited.
use containerd_shim_systemd.Prelude.{ℕ, ◌≡◌, refl, ◌∙◌, ap, true, false, none, arith}
use containerd_shim_systemd.Phase.{can_become}
use containerd_shim_systemd.State.{has_exited}
use containerd_shim_systemd.Process.{Process, begin_start, abort_start, advance, process_state}
use containerd_shim_systemd.Process.Observe.{exited-process_state}
use containerd_shim_systemd.Outside.{Outside, runc_starts}
use containerd_shim_systemd.Task.{InitProcess, init_name, Shim, load_state_init}
use containerd_shim_systemd.Task.Fields.{set_state_init-exited}
use containerd_shim_systemd.Teardown.{called, kill, found_as}
use containerd_shim_systemd.Startup.{is_ok}
use containerd_shim_systemd.Startup.Raced.{Reference, is_held, held_after, unless_deleting-held}
use containerd_shim_systemd.Startup.Container.{
  failed_state, start_unit, start_fails, start_init, restore_unit,
}

abort_start-state : (p : Process) → (abort_start p).state ≡ p.state
unfolding abort_start advance can_become
abort_start-state p = ground arith

failed_state-exited : (pid now : ℕ) → has_exited (failed_state pid now) ≡ true
unfolding has_exited
failed_state-exited pid now = refl

module _ (o : Outside) where
  open o use {World, pinned, now, ctx_done, stop_unit, runc_start}

  start_fails-exited :
      (s : Shim World) (p : InitProcess) → has_exited (start_fails o s p).1.process.state ≡ true
  unfolding start_fails
  start_fails-exited s p =
      let (s1, p1, loaded) = load_state_init o s p in
      let (s2, p2, loaded') = load_state_init o (kill o s1 (init_name p1)) p1 in
      let recorded = failed_state p2.process.state.pid (now s2.world) in
      ground (
        arith,
        set_state_init-exited o s2 p2 recorded
            (failed_state-exited p2.process.state.pid (now s2.world)),
        exited-process_state p1.process,
        exited-process_state p2.process,
      )

  -- A `Start` that is granted and whose `runc start` fails returns no process id, and the process has
  -- exited when it returns, whatever the other calls answer.
  pub start_init-exited :
      (n : ℕ) (s : Shim World) (p : InitProcess)
      → (begin_start p.process).1 ≡ none
      → (runc_start s.world p.process.id).0 ≡ false
      → let r = start_init o n s p in
        (is_ok r.2 ≡ false) × (has_exited (process_state r.1.process) ≡ true)
  unfolding start_init
  start_init-exited n s p h f =
      let claimed = (begin_start p.process).0 in
      let q = record p { process = claimed } in
      let w = (runc_start s.world p.process.id).1 in
      let failing = called s (runc_starts p.process.id) w in
      let q' = (start_fails o failing q).1 in
      let ended = start_fails-exited failing q in
      let kept = ap has_exited (abort_start-state q'.process) in
      rw (h, f, start_init) (refl, exited-process_state (abort_start q'.process) ∙ kept ∙ ended)

  -- With a message bus, a restore that ends with the container marked for deletion, by another
  -- goroutine, returns no process id and holds no reference to the unit but one whose release failed.
  pub restore_unit-held :
      (others : Process → Process) (s : Shim World) (p : InitProcess) (x : Reference)
      → pinned ≡ true
      → (restore_unit o others s p).1.process.deleting ≡ true
      → let r = restore_unit o others s p in
        (is_held (held_after (init_name p) x r.0.calls) ≡ false) × (is_ok r.2 ≡ false)
  unfolding restore_unit
  restore_unit-held others s p x h d =
      let (s', q, out) = start_unit o s p in
      let r = record q { process = found_as q.process (others q.process) } in
      unless_deleting-held o s' r.process (init_name p) out x h d
