-- ===== src/Adapter.antt =====
-- service_v2.go: `taskV2Adapter`, which serves the task service of version 2 by that of version 3.
pub mod Messages
pub mod Transparent
use containerd_shim_systemd.Prelude.{String, Option, none, some}
use containerd_shim_systemd.Adapter.Messages.{
  TaskService, TaskRequest, ExecRequest, CreateTaskRequest, CheckpointTaskRequest, KillRequest,
  ExecProcessRequest, ResizePtyRequest, CloseIoRequest, UpdateTaskRequest, ShutdownRequest,
  StateResponse, PidResponse, DeleteResponse, PidsResponse, WaitResponse, StatsResponse,
  ConnectResponse, no_state_response, no_pid_response, no_delete_response, no_pids_response,
  no_wait_response, no_stats_response, no_connect_response,
}

-- A response or, for a nil one, what its getters give.
abbrev pub or_zero : {A : Type 0} → A → Option A → A
or_zero z none = z
or_zero z (some r) = r

module _ {W : Type 0} (service : TaskService W) where
  -- `taskV2Adapter.State`.
  unfoldable pub adapt_state : W → ExecRequest → (Option StateResponse × Option String) × W
  adapt_state w request =
      let (answer, w') = service.state w (record { id = request.id; exec_id = request.exec_id }) in
      let response = or_zero no_state_response answer.0 in
      (
        (
          some (record {
            id = response.id;
            bundle = response.bundle;
            pid = response.pid;
            status = response.status;
            stdin = response.stdin;
            stdout = response.stdout;
            stderr = response.stderr;
            terminal = response.terminal;
            exit_status = response.exit_status;
            exited_at = response.exited_at;
            exec_id = response.exec_id;
          }),
          answer.1,
        ),
        w',
      )

  -- `taskV2Adapter.Create`.
  unfoldable pub adapt_create : W → CreateTaskRequest → (Option PidResponse × Option String) × W
  adapt_create w request =
      let (answer, w') = service.create w (record {
        id = request.id;
        bundle = request.bundle;
        rootfs = request.rootfs;
        terminal = request.terminal;
        stdin = request.stdin;
        stdout = request.stdout;
        stderr = request.stderr;
        checkpoint = request.checkpoint;
        parent_checkpoint = request.parent_checkpoint;
        options = request.options;
      }) in
      let response = or_zero no_pid_response answer.0 in
      ((some (record { pid = response.pid }), answer.1), w')

  -- `taskV2Adapter.Start`.
  unfoldable pub adapt_start : W → ExecRequest → (Option PidResponse × Option String) × W
  adapt_start w request =
      let (answer, w') = service.start w (record { id = request.id; exec_id = request.exec_id }) in
      let response = or_zero no_pid_response answer.0 in
      ((some (record { pid = response.pid }), answer.1), w')

  -- `taskV2Adapter.Delete`.
  unfoldable pub adapt_delete : W → ExecRequest → (Option DeleteResponse × Option String) × W
  adapt_delete w request =
      let (answer, w') = service.delete w (record { id = request.id; exec_id = request.exec_id }) in
      let response = or_zero no_delete_response answer.0 in
      (
        (
          some (record {
            pid = response.pid;
            exit_status = response.exit_status;
            exited_at = response.exited_at;
          }),
          answer.1,
        ),
        w',
      )

  -- `taskV2Adapter.Pids`.
  unfoldable pub adapt_pids : W → TaskRequest → (Option PidsResponse × Option String) × W
  adapt_pids w request =
      let (answer, w') = service.pids w (record { id = request.id }) in
      let response = or_zero no_pids_response answer.0 in
      ((some (record { processes = response.processes }), answer.1), w')

  -- `taskV2Adapter.Pause`.
  unfoldable pub adapt_pause : W → TaskRequest → (Option (Unit {0}) × Option String) × W
  adapt_pause w request = service.pause w (record { id = request.id })

  -- `taskV2Adapter.Resume`.
  unfoldable pub adapt_resume : W → TaskRequest → (Option (Unit {0}) × Option String) × W
  adapt_resume w request = service.resume w (record { id = request.id })

  -- `taskV2Adapter.Checkpoint`.
  unfoldable pub adapt_checkpoint :
      W → CheckpointTaskRequest → (Option (Unit {0}) × Option String) × W
  adapt_checkpoint w request =
      service.checkpoint w
        (record { id = request.id; path = request.path; options = request.options })

  -- `taskV2Adapter.Kill`.
  unfoldable pub adapt_kill : W → KillRequest → (Option (Unit {0}) × Option String) × W
  adapt_kill w request = service.kill w (record {
    id = request.id;
    exec_id = request.exec_id;
    signal = request.signal;
    all = request.all;
  })

  -- `taskV2Adapter.Exec`.
  unfoldable pub adapt_exec : W → ExecProcessRequest → (Option (Unit {0}) × Option String) × W
  adapt_exec w request = service.exec w (record {
    id = request.id;
    exec_id = request.exec_id;
    terminal = request.terminal;
    stdin = request.stdin;
    stdout = request.stdout;
    stderr = request.stderr;
    spec = request.spec;
  })

  -- `taskV2Adapter.ResizePty`.
  unfoldable pub adapt_resize_pty : W → ResizePtyRequest → (Option (Unit {0}) × Option String) × W
  adapt_resize_pty w request = service.resize_pty w (record {
    id = request.id;
    exec_id = request.exec_id;
    width = request.width;
    height = request.height;
  })

  -- `taskV2Adapter.CloseIO`.
  unfoldable pub adapt_close_io : W → CloseIoRequest → (Option (Unit {0}) × Option String) × W
  adapt_close_io w request =
      service.close_io w
        (record { id = request.id; exec_id = request.exec_id; stdin = request.stdin })

  -- `taskV2Adapter.Update`.
  unfoldable pub adapt_update : W → UpdateTaskRequest → (Option (Unit {0}) × Option String) × W
  adapt_update w request =
      service.update w (record {
        id = request.id;
        resources = request.resources;
        annotations = request.annotations;
      })

  -- `taskV2Adapter.Wait`.
  unfoldable pub adapt_wait : W → ExecRequest → (Option WaitResponse × Option String) × W
  adapt_wait w request =
      let (answer, w') = service.wait w (record { id = request.id; exec_id = request.exec_id }) in
      let response = or_zero no_wait_response answer.0 in
      (
        (
          some (record { exit_status = response.exit_status; exited_at = response.exited_at }),
          answer.1,
        ),
        w',
      )

  -- `taskV2Adapter.Stats`.
  unfoldable pub adapt_stats : W → TaskRequest → (Option StatsResponse × Option String) × W
  adapt_stats w request =
      let (answer, w') = service.stats w (record { id = request.id }) in
      let response = or_zero no_stats_response answer.0 in
      ((some (record { stats = response.stats }), answer.1), w')

  -- `taskV2Adapter.Connect`.
  unfoldable pub adapt_connect : W → TaskRequest → (Option ConnectResponse × Option String) × W
  adapt_connect w request =
      let (answer, w') = service.connect w (record { id = request.id }) in
      let response = or_zero no_connect_response answer.0 in
      (
        (
          some (record {
            shim_pid = response.shim_pid;
            task_pid = response.task_pid;
            version = response.version;
          }),
          answer.1,
        ),
        w',
      )

  -- `taskV2Adapter.Shutdown`.
  unfoldable pub adapt_shutdown : W → ShutdownRequest → (Option (Unit {0}) × Option String) × W
  adapt_shutdown w request = service.shutdown w (record { id = request.id; now = request.now })
