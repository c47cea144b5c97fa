-- ===== src/Outside.antt =====
-- What the shim asks of the programs and libraries around it (systemd over D-Bus, runc, the file
-- system, the clock, the publish queue of containerd's events): operations of a world, of which
-- nothing is assumed. The answers of one run are those of one world.
use containerd_shim_systemd.Prelude.{ℕ, Bool, String, Option}
use containerd_shim_systemd.State.{PState}
use containerd_shim_systemd.State.Unit.{UnitProperties}
use containerd_shim_systemd.Outbox.{Event}

-- The exit state files, by what `exitStatePath` joins: the bundle, and the exec's id.
pub data StateFile : Type 0 where
  init_exit_status : (bundle : String) → StateFile
  exec_exit_status : (bundle exec_id : String) → StateFile

pub record Outside : Type 1 where
  pub World : Type 0
  -- Whether `Service.send` got the event into the queue in time.
  pub send : World → String → Event → Bool × World
  -- `time.Now()`.
  pub now : World → ℕ
  -- `os.ReadFile` and `json.Unmarshal`; `none` is an error of either.
  pub read_state_file : World → StateFile → Option PState × World
  -- `GetAllPropertiesContext` of a unit by its name; `none` is an error.
  pub get_all : World → String → Option UnitProperties × World
  -- `runc kill --all` with SIGKILL; the result is whether it worked.
  pub runc_kill_all : World → String → Bool × World
  -- Whether there is a message bus, on which references to units can be taken (`pinConn`).
  pub pinned : Bool
  -- `StartTransientUnitContext`, with or without `AddRef`, and the job's result that the channel
  -- delivers; `none` is a context that is done first.
  pub start_transient : World → String → Bool → Bool × World
  pub job_result : World → String → Option String × World
  -- `StopUnitContext` and the wait for its job, `KillUnitContext`, `ResetFailedUnitContext` and
  -- `UnrefUnit`. The answers of the first and the third are read; whether the last worked is only
  -- logged, but decides whether the reference is gone.
  pub stop_unit : World → String → Bool × World
  pub kill_unit : World → String → World
  pub reset_failed : World → String → Bool × World
  pub unref_unit : World → String → Bool × World
  -- `runc start` and `runc delete --force`; the result is whether it worked.
  pub runc_start : World → String → Bool × World
  pub runc_delete : World → String → Bool × World
  -- Whether the context is done.
  pub ctx_done : World → Bool
  -- The pid file of an exec, by its path: `none` cannot be read, `some none` holds no number.
  pub read_pid_file : World → String → Option (Option ℕ) × World
  -- `systemd.PathBusEscape`.
  pub path_bus_escape : String → String
  -- `execProcess.Create`, which writes the exec's files into its directory.
  pub write_exec : World → String → Bool × World
  -- What `initProcess.Create` does before it starts the unit: the mount configuration, whether it
  -- was written, and for a checkpoint `createRestore`, which gives the terminal flag of the spec, or
  -- `none` where it fails.
  pub write_mounts : World → String → Bool × World
  pub create_restore : World → String → Option Bool × World
  -- `os.RemoveAll`.
  pub remove_all : World → String → World

-- What was asked of systemd and of runc about a unit or a container.
pub data Call : Type 0 where
  starts : (unit_name : String) (add_ref : Bool) → Call
  stops : (unit_name : String) → Call
  kills : (unit_name : String) → Call
  signals : (unit_name : String) (all : Bool) (sig : ℕ) → Call
  resets : (unit_name : String) → Call
  unrefs : (unit_name : String) (released : Bool) → Call
  runc_starts : (id : String) → Call
  runc_deletes : (id : String) → Call
