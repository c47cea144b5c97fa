-- ===== src/Startup.antt =====
-- start.go and create.go: the start of an exec, and of a unit that may be there already. Another
-- goroutine may delete the process while its unit starts: `others` is what it does in that time.
pub mod Raced
pub mod Abandoned
pub mod Container
use Prim.Native.String.{◌++◌ as text_append}
use containerd_shim_systemd.Prelude.{
  ℕ, zero, suc, Bool, true, false, ◌&&◌, ◌||◌, not, String, List, Option, none, some, str_eq, ltb,
  ◌==◌, if◌then◌else◌,
}
use containerd_shim_systemd.State.{PState, has_exited, has_started, zero_state}
use containerd_shim_systemd.State.Status.{exited_init}
use containerd_shim_systemd.Process.{
  Process, begin_start, abort_start, clear_recorded_systemd_exit_state, process_state, set_pid,
}
use containerd_shim_systemd.Outside.{Outside, exec_exit_status}
use containerd_shim_systemd.Task.{
  ExecProcess, InitProcess, unit_name, exec_name, init_name, Shim, load_state_exec, load_state_init,
}
use containerd_shim_systemd.Pty.Unit.{tty_unit_name, make_pty}
use containerd_shim_systemd.Teardown.{
  Outcome, ok, failed_precondition, failed, blocked, start_transient_unit, release_unit,
  stop_and_kill, kill, reset_failed_unit, delete_in_runc, state_dir, found_as, called,
}

abbrev pub is_ok : {A : Type 0} → Outcome A → Bool
is_ok (ok a) = true
is_ok _ = false

abbrev pub is_error : {A : Type 0} → Outcome A → Bool
is_error failed = true
is_error failed_precondition = true
is_error _ = false

module _ (o : Outside) where
  open o use {World, job_result, stop_unit, ctx_done, read_pid_file, read_state_file}

  -- `abandonStartedUnit`.
  unfoldable pub abandon_started_unit : Shim World → String → Shim World
  abandon_started_unit s name =
      (reset_failed_unit o (release_unit o (stop_and_kill o s name) name) name).0

  -- `getPid`.
  unfoldable pub get_pid : Shim World → ExecProcess → Shim World × Outcome ℕ
  get_pid s p =
      let (file, w) = read_pid_file s.world (text_append (state_dir p) "/pid") in
      let (left, w') = read_state_file w (exec_exit_status p.bundle p.exec_id) in
      elim file [
        | none ↦ elim left [
          | none ↦ (record s { world = w' }, failed)
          | some st ↦
              if ltb 0 st.pid && (str_eq st.status "running" || str_eq st.status "exited")
              then (record s { world = w' }, ok st.pid)
              else (record s { world = w' }, failed)
        ]
        | some none ↦ (record s { world = w }, failed)
        | some (some pid) ↦
            if pid == 0 then (record s { world = w }, failed) else (record s { world = w }, ok pid)
      ]

  -- The unit of an exec, tried again once a failed one of the name is reset.
  unfoldable pub start_exec_unit : Shim World → String → Shim World × Bool
  start_exec_unit s name =
      let (s', done) = start_transient_unit o s name in
      let (s'', reset) = reset_failed_unit o s' name in
      if done
      then (s', true)
      else if not reset
      then (s'', false)
      else start_transient_unit o s'' name

  -- The job of the unit: whether the start goes on.
  unfoldable pub start_exec_job : Shim World → ExecProcess → Shim World × ExecProcess × Bool
  start_exec_job s p =
      let (status, w) = job_result s.world (exec_name p) in
      let s' = record s { world = w } in
      let (s'', p') = load_state_exec o s' p in
      let st = process_state p'.process in
      elim status [
        | none ↦ (kill o s' (exec_name p), p, true)
        | some text ↦
            if str_eq text "done"
            then (s', p, true)
            else (s'', p', not (has_exited st && st.exit_code == 255))
      ]

  -- From the job on: the process id, which becomes the process's.
  unfoldable pub start_exec_pid : Shim World → ExecProcess → Shim World × ExecProcess × Outcome ℕ
  start_exec_pid s p =
      let (s', p') = load_state_exec o s p in
      let (s'', out) = get_pid s' p' in
      if str_eq (process_state p'.process).status exited_init then (s', p', failed) else elim out [
        | ok pid ↦ (s'', record p' { process = set_pid p'.process pid }, ok pid)
        | failed_precondition ↦ (s'', p', failed_precondition)
        | failed ↦ (s'', p', failed)
        | blocked ↦ (s'', p', blocked)
      ]

  -- The deferred check of a start: the unit of a process that is being deleted is abandoned.
  unfoldable pub unless_deleting :
      Shim World → Process → String → Outcome ℕ → Shim World × Outcome ℕ
  unless_deleting s p name out =
      if not p.deleting
      then (s, out)
      else (abandon_started_unit s name, if is_ok out then failed_precondition else out)

  -- `execProcess.Start` from where that check is installed.
  unfoldable pub run_exec :
      (Process → Process) → Shim World → ExecProcess → Shim World × ExecProcess × Outcome ℕ
  run_exec others s p =
      let cleared = clear_recorded_systemd_exit_state p.process in
      let (s', began) = start_exec_unit s (exec_name p) in
      let q = record p { process = found_as p.process (others cleared) } in
      let (s'', q', goes_on) = start_exec_job s' q in
      let (s3, q'', out) = start_exec_pid s'' q' in
      let (s4, early) = unless_deleting s' q.process (exec_name p) failed in
      let (s5, middle) = unless_deleting s'' q'.process (exec_name p) failed in
      let (s6, late) = unless_deleting s3 q''.process (exec_name p) out in
      if not began
      then (s4, q, early)
      else if not goes_on
      then (s5, q', middle)
      else (s6, q'', late)

  -- The deferred `abortStart`.
  unfoldable pub start_ends :
      Shim World → ExecProcess → Outcome ℕ → Shim World × ExecProcess × Outcome ℕ
  start_ends s p out =
      if is_error out then (s, record p { process = abort_start p.process }, out) else (s, p, out)

  unfoldable pub start_exec_started :
      (Process → Process) → Shim World → ExecProcess → Shim World × ExecProcess × Outcome ℕ
  start_exec_started others s p =
      let tty = tty_unit_name p.process in
      let (s', made) = make_pty o s p.process in
      let (s'', p', out) = run_exec others s' p in
      let killed = if is_error out then kill o s'' tty else s'' in
      let plain = run_exec others s p in
      if not p.process.terminal
      then plain
      else if not made
      then (s', p, failed)
      else (killed, p', out)

  -- `execProcess.Start`; the container of the exec is loaded if it has no process id yet.
  unfoldable pub start_exec :
      (Process → Process)
      → Shim World
      → InitProcess
      → ExecProcess
      → Shim World × InitProcess × ExecProcess × Outcome ℕ
  start_exec others s parent p =
      let (claimed, err) = begin_start p.process in
      let q = record p { process = claimed } in
      let (s', parent', loaded) = load_state_init o s parent in
      let (s1, q1, out1) = start_exec_started others s q in
      let (s2, q2, out2) = start_exec_started others s' q in
      let (s1', q1', end1) = start_ends s1 q1 out1 in
      let (s2', q2', end2) = start_ends s2 q2 out2 in
      let (s3, q3, end3) = start_ends s' q failed_precondition in
      elim err [
        | some e ↦ (s, parent, p, failed_precondition)
        | none ↦
            if has_started (process_state parent.process)
            then (s1', parent, q1', end1)
            else if has_started (process_state parent'.process)
            then (s2', parent', q2', end2)
            else (s3, parent', q3, end3)
      ]
