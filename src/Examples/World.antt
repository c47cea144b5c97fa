-- ===== src/Examples/World.antt =====
-- A small outside world for the runs: events are always taken, but for the numbered sends that
-- `fails` names; no file can be read, and no unit.
use containerd_shim_systemd.Prelude.{ℕ, ◌+◌, Bool, true, false, not, String, [], none, some, ◌==◌}
use containerd_shim_systemd.Outbox.{Event}
use containerd_shim_systemd.State.Unit.{UnitProperties}
use containerd_shim_systemd.Outside.{Outside}

-- The world counts the sends; the first one fails.
abbrev pub first_fails : ℕ → String → Event → Bool × ℕ
first_fails w ns e = (not (w == 0), w + 1)

abbrev pub quiet : Outside
quiet = record {
  World = ℕ;
  send = λ w ns e. (true, w);
  now = λ w. 9999999999999999999999;
  read_state_file = λ w f. (none, w);
  get_all = λ w n. (none, w);
  runc_kill_all = λ w c. (true, w);
  pinned = true;
  start_transient = λ w n r. (true, w);
  job_result = λ w n. (some "done", w);
  stop_unit = λ w n. (true, w);
  kill_unit = λ w n. w;
  reset_failed = λ w n. (true, w);
  unref_unit = λ w n. (true, w);
  runc_start = λ w c. (true, w);
  runc_delete = λ w c. (true, w);
  ctx_done = λ w. false;
  read_pid_file = λ w f. (some (some 42), w);
  path_bus_escape = λ n. n;
  write_exec = λ w d. (true, w);
  write_mounts = λ w b. (true, w);
  create_restore = λ w b. (some false, w);
  remove_all = λ w f. w;
}

-- The main process is up.
abbrev running_unit : UnitProperties
running_unit = record {
  exec_main_pid = some 42;
  exec_main_status = none;
  exec_main_code = none;
  exec_start = [];
  sub_state = some "running";
}

abbrev pub all_up : Outside
all_up = record quiet { get_all = λ w n. (some running_unit, w) }
