-- ===== src/Startup/Container.antt =====
-- create.go, `startUnit`, and start.go: the start of a container.
pub mod Alive
use containerd_shim_systemd.Prelude.{
  ℕ, zero, suc, Bool, true, false, ◌&&◌, ◌||◌, not, String, Option, none, some, str_eq, ltb, ◌==◌,
  if◌then◌else◌,
}
use containerd_shim_systemd.State.{PState, has_exited}
use containerd_shim_systemd.Process.{
  Process, begin_start, abort_start, clear_recorded_systemd_exit_state, process_state,
}
use containerd_shim_systemd.Outside.{Outside, stops, runc_starts}
use containerd_shim_systemd.Task.{
  InitProcess, unit_name, init_name, Shim, load_state_init, set_state_init,
}
use containerd_shim_systemd.Pty.Unit.{tty_unit_name, make_pty}
use containerd_shim_systemd.Teardown.{
  Outcome, ok, failed_precondition, failed, blocked, start_transient_unit, release_unit, kill,
  reset_failed_unit, delete_in_runc, called, found_as,
}
use containerd_shim_systemd.Startup.{is_ok, is_error, unless_deleting}

-- What a failed start records of a process that has not exited.
abbrev pub failed_state : ℕ → ℕ → PState
failed_state pid now = record { exited_at = now; exit_code = 255; pid = pid; status = "failed" }

abbrev pub is_up : Process → Bool
is_up p = not (p.state.pid == 0) || has_exited (process_state p)

module _ (o : Outside) where
  open o use {World, now, job_result, stop_unit, ctx_done, runc_start}

  -- `initProcess.Kill` with SIGKILL, as far as it changes the world.
  unfoldable pub kill_init : Shim World → InitProcess → Shim World
  kill_init s p =
      if p.process.state.pid == 0 || has_exited (process_state p.process)
      then s
      else kill o s (init_name p)

  -- The retry of a start that systemd refused.
  unfoldable pub start_again : Shim World → InitProcess → Shim World × Bool
  start_again s p =
      let s' = (delete_in_runc o s p.process.id).0 in
      start_transient_unit o (reset_failed_unit o s' (init_name p)).0 (init_name p)

  -- The wait for the job in `do`: whether it returned nil.
  unfoldable pub await_job : Shim World → InitProcess → Shim World × InitProcess × Bool
  await_job s p =
      let (status, w) = job_result s.world (init_name p) in
      let s' = record s { world = w } in
      let (s'', p', loaded) = load_state_init o s' p in
      elim status [
        | none ↦ (kill_init s' p, p, false)
        | some text ↦
            if not (str_eq text "done")
            then (s', p, false)
            else (s'', p', loaded && not (has_exited (process_state p'.process)))
      ]

  -- `do` of `startUnit`.
  unfoldable pub start_once : Shim World → InitProcess → Shim World × InitProcess × Bool
  start_once s p =
      let q = record p { process = clear_recorded_systemd_exit_state p.process } in
      let reset = (reset_failed_unit o s (init_name p)).0 in
      let (s', began) = start_transient_unit o reset (init_name p) in
      let (s'', again) = start_again s' q in
      let first = await_job s' q in
      let second = await_job s'' q in
      if began then first else if again then second else (s'', q, false)

  -- The loop of `handlePid`; whether the context ended it.
  unfoldable pub wait_pid : ℕ → Shim World → InitProcess → Shim World × InitProcess × Bool
  wait_pid zero s p = (s, p, false)
  wait_pid (suc n) s p =
      let (s', p', loaded) = load_state_init o s p in
      let rest = wait_pid n s' p' in
      if is_up p.process then (s, p, false) else if ctx_done s.world then (s, p, true) else rest

  -- `handlePid` of `startUnit`, with its ten retries.
  unfoldable pub handle_pid : Shim World → InitProcess → Shim World × InitProcess × Outcome ℕ
  handle_pid s p =
      let (s', p', loaded) = load_state_init o s p in
      let (s'', q, gave_up) = wait_pid 10 s' p' in
      if gave_up || has_exited (process_state q.process)
      then (s'', q, failed)
      else (s'', q, ok q.process.state.pid)

  -- The second attempt of `startUnit`, once the first unit is stopped.
  unfoldable pub start_unit_again : Shim World → InitProcess → Shim World × InitProcess × Outcome ℕ
  start_unit_again s p =
      let s' = (delete_in_runc o (release_unit o s (init_name p)) p.process.id).0 in
      let (s'', q, done) = start_once s' p in
      let up = handle_pid s'' q in
      if done then up else ((delete_in_runc o s'' p.process.id).0, q, failed)

  -- `startUnit`. The wait for the stop's job never ends where the stop itself has failed and the
  -- context is not done.
  unfoldable pub start_unit : Shim World → InitProcess → Shim World × InitProcess × Outcome ℕ
  start_unit s p =
      let (s', q, done) = start_once s p in
      let (s'', q', out) = handle_pid s' q in
      let (stopped, w) = stop_unit s''.world (init_name p) in
      let after_stop = called s'' (stops (init_name p)) w in
      let again = start_unit_again after_stop q' in
      if done || is_ok out
      then (s'', q', out)
      else if ctx_done w
      then (after_stop, q', failed)
      else if not stopped
      then (after_stop, q', blocked)
      else again

  -- `restore`, with what other goroutines do meanwhile.
  unfoldable pub restore_unit :
      (Process → Process) → Shim World → InitProcess → Shim World × InitProcess × Outcome ℕ
  restore_unit others s p =
      let (s', q, out) = start_unit s p in
      let r = record q { process = found_as q.process (others q.process) } in
      let (s'', out') = unless_deleting o s' r.process (init_name p) out in (s'', r, out')

  unfoldable pub restore :
      (Process → Process) → Shim World → InitProcess → Shim World × InitProcess × Outcome ℕ
  restore others s p =
      let tty = tty_unit_name p.process in
      let (s', made) = make_pty o s p.process in
      let (s'', q, out) = restore_unit others s' p in
      let plain = restore_unit others s p in
      if not p.process.terminal
      then plain
      else if not made
      then (s', p, failed)
      else (if is_error out then kill o s'' tty else s'', q, out)

  -- A `Start` whose `runc start` has failed: the process is killed, and recorded as failed if
  -- nothing says how it ended.
  unfoldable pub start_fails : Shim World → InitProcess → Shim World × InitProcess
  start_fails s p =
      let (s1, p1, loaded) = load_state_init o s p in
      let (s2, p2, loaded') = load_state_init o (kill o s1 (init_name p1)) p1 in
      let (s3, p3, st) =
        set_state_init o s2 p2 (failed_state p2.process.state.pid (now s2.world)) in
      if has_exited (process_state p1.process)
      then (s1, p1)
      else if has_exited (process_state p2.process)
      then (s2, p2)
      else (s3, p3)

  -- The loop that waits for the process id after `runc start`; it does not look at the context.
  unfoldable pub await_pid : ℕ → Shim World → InitProcess → Shim World × InitProcess × Outcome ℕ
  await_pid zero s p = (s, p, blocked)
  await_pid (suc n) s p =
      let (s', p', loaded) = load_state_init o s p in
      let rest = await_pid n s' p' in
      if is_up p.process then (s, p, ok p.process.state.pid) else rest

  -- `initProcess.Start` of a container that is not restored; `n` bounds the loads that are waited for.
  unfoldable pub start_init : ℕ → Shim World → InitProcess → Shim World × InitProcess × Outcome ℕ
  start_init n s p =
      let (claimed, err) = begin_start p.process in
      let q = record p { process = claimed } in
      let (done, w) = runc_start s.world p.process.id in
      let s' = called s (runc_starts p.process.id) w in
      let up = await_pid n s' q in
      let (s'', q') = start_fails s' q in
      elim err [
        | some e ↦ (s, p, failed_precondition)
        | none ↦ if done then up else (s'', record q' { process = abort_start q'.process }, failed)
      ]
