-- ===== src/Teardown.antt =====
-- unitref.go and delete.go: the reference to a unit, and the teardown of a process.
pub mod Released
use Prim.Native.String.{◌++◌ as text_append}
use containerd_shim_systemd.Prelude.{
  ℕ, Bool, true, false, ◌&&◌, ◌||◌, not, String, List, [], ◌∷◌, ◌++◌, Option, none, some,
  if◌then◌else◌, ltb, ◌==◌,
}
use containerd_shim_systemd.Prelude.Assoc.{remove}
use containerd_shim_systemd.Phase.{deleted, running}
use containerd_shim_systemd.State.{PState, has_exited, zero_state}
use containerd_shim_systemd.State.Time.{zero_time}
use containerd_shim_systemd.State.Unit.{load_exit_from_unit}
use containerd_shim_systemd.Outbox.{task_delete, task_start, task_exec_started}
use containerd_shim_systemd.Process.{Process, advance, mark_deleting, process_state}
use containerd_shim_systemd.Outside.{
  Outside, Call, stops, kills, resets, unrefs, starts, runc_deletes,
}
use containerd_shim_systemd.Task.{
  ExecProcess, InitProcess, unit_name, exec_name, init_name, Shim, publish, set_state_exec,
  set_state_init,
}
use containerd_shim_systemd.Wait.{Wake, looks_at, wait_for_exit, waiting, cancelled, returned}

-- How a request to a process ends: `blocked` is a wait that goes on.
pub data Outcome (A : Type 0) : Type 0 where
  ok : A → Outcome A
  failed_precondition : Outcome A
  failed : Outcome A
  blocked : Outcome A

-- The state that `finishStart` records.
abbrev pub started_state : ℕ → PState
started_state pid = record { exited_at = zero_time; exit_code = 0; pid = pid; status = "running" }

-- `stateDir`.
unfoldable pub state_dir : ExecProcess → String
state_dir p = text_append p.bundle (text_append "/execs/" p.exec_id)

-- A process as a wait finds it: what is set once never changes.
unfoldable pub found_as : Process → Process → Process
found_as p q = record q { ns = p.ns; id = p.id; path_name = p.path_name; terminal = p.terminal }

module _ {W : Type 0} where
  -- A call, and the world after it.
  abbrev pub called : Shim W → Call → W → Shim W
  called s c w = record s { world = w; calls = s.calls ++ c ∷ [] }

module _ (o : Outside) where
  open o use {
    World, now, get_all, pinned, start_transient, stop_unit, kill_unit, reset_failed, unref_unit,
    runc_delete, ctx_done, remove_all,
  }

  -- `startTransientUnit`: whether it returned nil.
  unfoldable pub start_transient_unit : Shim World → String → Shim World × Bool
  start_transient_unit s name =
      let (done, w) = start_transient s.world name pinned in (called s (starts name pinned) w, done)

  -- `releaseUnit`; a release that fails is logged, and the reference stays.
  unfoldable pub release_unit : Shim World → String → Shim World
  release_unit s name =
      let (released, w) = unref_unit s.world name in
      if not pinned then s else called s (unrefs name released) w

  -- `StopUnitContext`, waited for if it worked; then the kill of what is left.
  unfoldable pub stop_and_kill : Shim World → String → Shim World
  stop_and_kill s name =
      let stopped = called s (stops name) (stop_unit s.world name).1 in
      called stopped (kills name) (kill_unit stopped.world name)

  unfoldable pub kill : Shim World → String → Shim World
  kill s name = called s (kills name) (kill_unit s.world name)

  unfoldable pub reset_failed_unit : Shim World → String → Shim World × Bool
  reset_failed_unit s name =
      let (done, w) = reset_failed s.world name in (called s (resets name) w, done)

  unfoldable pub delete_in_runc : Shim World → String → Shim World × Bool
  delete_in_runc s id =
      let (done, w) = runc_delete s.world id in (called s (runc_deletes id) w, done)

  -- `initProcess.finishStart`.
  unfoldable pub finish_start_init : Shim World → InitProcess → ℕ → Shim World × InitProcess
  finish_start_init s p pid =
      let advanced = (advance p.process running).0 in
      let (s', p', st) = set_state_init o s (record p { process = advanced }) (started_state pid) in
      let (s'', q) = publish o s' p'.process (task_start p.process.id pid) in
      (s'', record p' { process = q })

  -- `execProcess.finishStart`.
  unfoldable pub finish_start_exec : Shim World → ExecProcess → ℕ → Shim World × ExecProcess
  finish_start_exec s p pid =
      let advanced = (advance p.process running).0 in
      let (s', p', st) = set_state_exec o s (record p { process = advanced }) (started_state pid) in
      let (s'', q) = publish o s' p'.process (task_exec_started p.container_id p.exec_id pid) in
      (s'', record p' { process = q })

  -- `initProcess.finishDelete`: only the call that deletes the process publishes it.
  unfoldable pub finish_delete_init : Shim World → Process → Shim World × Process
  finish_delete_init s p =
      let (p', changed, err) = advance p deleted in
      let st = process_state p' in
      let published = publish o s p' (task_delete p.id st.pid st.exit_code st.exited_at) in
      if not changed then (s, p') else published

  -- `execProcess.finishDelete`.
  unfoldable pub finish_delete_exec : Process → Process
  finish_delete_exec p = (advance p deleted).0

  -- The deferred calls of a `Delete` that is past its precondition.
  unfoldable pub delete_fails : Shim World → InitProcess → String → Shim World
  delete_fails s p root = release_unit (record s { world = remove_all s.world root }) (init_name p)

  -- The end of `initProcess.Delete`, from the wait on; `ps` is what it returns.
  unfoldable pub delete_init_ends :
      Shim World → InitProcess → PState → Shim World × InitProcess × Outcome PState
  delete_init_ends s p ps =
      let tty = unit_name p.process.ns p.process.id "tty" in
      let killed = if p.process.terminal then kill s tty else s in
      let reset = (reset_failed_unit killed (init_name p)).0 in
      let (s', q) = finish_delete_init reset p.process in
      (release_unit s' (init_name p), record p { process = q }, ok ps)

  -- The wait of `initProcess.Delete`.
  unfoldable pub delete_init_waits :
      List Wake → Shim World → InitProcess → Shim World × InitProcess × Outcome PState
  delete_init_waits wakes s p = elim (wait_for_exit (looks_at (ctx_done s.world) p.process wakes)) [
    | waiting ↦ (s, p, blocked)
    | cancelled ↦ (delete_fails s p p.bundle, p, failed)
    | returned q st ↦ delete_init_ends s (record p { process = found_as p.process q }) st
  ]

  -- `initProcess.Delete` once it is past its precondition. `root` is the bundle.
  unfoldable pub tear_down_init :
      List Wake → Shim World → InitProcess → Shim World × InitProcess × Outcome PState
  tear_down_init wakes s p =
      let marked = record p { process = mark_deleting p.process } in
      let (s', gone) = delete_in_runc (stop_and_kill s (init_name p)) p.process.id in
      let waits = delete_init_waits wakes s' marked in
      let ends = delete_init_ends s' marked zero_state in
      if not gone
      then (delete_fails s' marked p.bundle, marked, failed)
      else if ltb 0 p.process.state.pid
      then waits
      else ends

  -- `initProcess.Delete`.
  unfoldable pub delete_init :
      List Wake → Shim World → InitProcess → Shim World × InitProcess × Outcome PState
  delete_init wakes s p =
      let (props, w) = get_all s.world (init_name p) in
      let s' = record s { world = w } in
      let unread = tear_down_init wakes s' p in
      if has_exited (process_state p.process)
      then tear_down_init wakes s p
      else elim (load_exit_from_unit (now w) props) [
        | none ↦ unread
        | some st ↦
            let (s'', p', merged) = set_state_init o s' p st in
            if not (has_exited st)
            then (s', p, failed_precondition)
            else tear_down_init wakes s'' p'
      ]

  -- `execProcess.Delete`, from the end of its wait on. The exec leaves the list of its parent in
  -- `delete`.
  unfoldable pub delete_exec_ends :
      Shim World → ExecProcess → PState → Shim World × ExecProcess × Outcome PState
  delete_exec_ends s p ps =
      let done = record p { process = finish_delete_exec p.process } in
      let reset = (reset_failed_unit s (exec_name p)).0 in
      let removed = record reset { world = remove_all reset.world (state_dir p) } in
      (release_unit removed (exec_name p), done, ok ps)

  -- The wait of `execProcess.Delete`.
  unfoldable pub delete_exec_waits :
      List Wake → Shim World → ExecProcess → Shim World × ExecProcess × Outcome PState
  delete_exec_waits wakes s p = elim (wait_for_exit (looks_at (ctx_done s.world) p.process wakes)) [
    | waiting ↦ (s, p, blocked)
    | cancelled ↦ (release_unit s (exec_name p), p, failed)
    | returned q st ↦ delete_exec_ends s (record p { process = found_as p.process q }) st
  ]

  -- `execProcess.Delete` once it is past its precondition.
  unfoldable pub tear_down_exec :
      List Wake → Shim World → ExecProcess → Shim World × ExecProcess × Outcome PState
  tear_down_exec wakes s p =
      let marked = record p { process = mark_deleting p.process } in
      let stopped = stop_and_kill s (exec_name p) in
      let tty = unit_name p.process.ns p.process.id "tty" in
      let killed = if p.process.terminal then kill stopped tty else stopped in
      let ends = delete_exec_ends killed marked zero_state in
      let waits = delete_exec_waits wakes killed marked in
      if ltb 0 p.process.state.pid then waits else ends

  -- `execProcess.Delete`; the second process is the parent's.
  unfoldable pub delete_exec :
      List Wake → Shim World → Process → ExecProcess → Shim World × ExecProcess × Outcome PState
  delete_exec wakes s parent p =
      let torn = tear_down_exec wakes s p in
      let running_on =
        not (p.process.state.pid == 0)
        && (not (has_exited (process_state p.process))
            && not (has_exited (process_state parent))) in
      if running_on then (s, p, failed_precondition) else torn
