-- ===== src/Adapter/Transparent.antt =====
-- service_v2.go: the adapter loses nothing of a request or of an answer.
use containerd_shim_systemd.Prelude.{◌≡◌, refl, String, Option, some}
use containerd_shim_systemd.Adapter.Messages.{
  TaskService, TaskRequest, ExecRequest, CreateTaskRequest, CheckpointTaskRequest, KillRequest,
  ExecProcessRequest, ResizePtyRequest, CloseIoRequest, UpdateTaskRequest, ShutdownRequest,
  no_state_response, no_pid_response, no_delete_response, no_pids_response, no_wait_response,
  no_stats_response, no_connect_response,
}
use containerd_shim_systemd.Adapter.{
  or_zero, adapt_state, adapt_create, adapt_start, adapt_delete, adapt_pids, adapt_pause,
  adapt_resume, adapt_checkpoint, adapt_kill, adapt_exec, adapt_resize_pty, adapt_close_io,
  adapt_update, adapt_wait, adapt_stats, adapt_connect, adapt_shutdown,
}

-- An answer whose response is never nil.
abbrev pub not_nil :
    {A W : Type 0} → A → (Option A × Option String) × W → (Option A × Option String) × W
not_nil z ((response, err), w) = ((some (or_zero z response), err), w)

-- What the adapter does is what the service does with the same request: no field of a request or of a
-- response is lost or changed, the error is that of the service, and where the service gives no
-- response the fields of the response are zero.
abbrev pub IsTransparent : {W : Type 0} → TaskService W → Type 0
IsTransparent {W} service =
    ((w : W) (q : ExecRequest)
      → adapt_state service w q ≡ not_nil no_state_response (service.state w q))
    × ((w : W) (q : CreateTaskRequest)
        → adapt_create service w q ≡ not_nil no_pid_response (service.create w q))
    × ((w : W) (q : ExecRequest)
        → adapt_start service w q ≡ not_nil no_pid_response (service.start w q))
    × ((w : W) (q : ExecRequest)
        → adapt_delete service w q ≡ not_nil no_delete_response (service.delete w q))
    × ((w : W) (q : TaskRequest)
        → adapt_pids service w q ≡ not_nil no_pids_response (service.pids w q))
    × ((w : W) (q : TaskRequest) → adapt_pause service w q ≡ service.pause w q)
    × ((w : W) (q : TaskRequest) → adapt_resume service w q ≡ service.resume w q)
    × ((w : W) (q : CheckpointTaskRequest) → adapt_checkpoint service w q ≡ service.checkpoint w q)
    × ((w : W) (q : KillRequest) → adapt_kill service w q ≡ service.kill w q)
    × ((w : W) (q : ExecProcessRequest) → adapt_exec service w q ≡ service.exec w q)
    × ((w : W) (q : ResizePtyRequest) → adapt_resize_pty service w q ≡ service.resize_pty w q)
    × ((w : W) (q : CloseIoRequest) → adapt_close_io service w q ≡ service.close_io w q)
    × ((w : W) (q : UpdateTaskRequest) → adapt_update service w q ≡ service.update w q)
    × ((w : W) (q : ExecRequest)
        → adapt_wait service w q ≡ not_nil no_wait_response (service.wait w q))
    × ((w : W) (q : TaskRequest)
        → adapt_stats service w q ≡ not_nil no_stats_response (service.stats w q))
    × ((w : W) (q : TaskRequest)
        → adapt_connect service w q ≡ not_nil no_connect_response (service.connect w q))
    × ((w : W) (q : ShutdownRequest) → adapt_shutdown service w q ≡ service.shutdown w q)

-- The adapter is transparent, for every service: what a client of version 2 sends reaches the service
-- whole, and what it is answered is the service's answer whole, with zero fields where there is no
-- response.
pub adapter-IsTransparent : {W : Type 0} (service : TaskService W) → IsTransparent service
unfolding adapt_state adapt_create adapt_start adapt_delete adapt_pids adapt_pause adapt_resume
    adapt_checkpoint adapt_kill adapt_exec adapt_resize_pty adapt_close_io adapt_update adapt_wait
    adapt_stats adapt_connect adapt_shutdown
adapter-IsTransparent service = (
  λ w q. refl,
  λ w q. refl,
  λ w q. refl,
  λ w q. refl,
  λ w q. refl,
  λ w q. refl,
  λ w q. refl,
  λ w q. refl,
  λ w q. refl,
  λ w q. refl,
  λ w q. refl,
  λ w q. refl,
  λ w q. refl,
  λ w q. refl,
  λ w q. refl,
  λ w q. refl,
  λ w q. refl,
)
