-- ===== src/Adapter/Messages.antt =====
-- The messages of containerd's task service, as far as the adapter copies them: those of version 2 and
-- of version 3 have the same fields. An `Any` is its text; a pointer is an option.
use containerd_shim_systemd.Prelude.{ℕ, Bool, false, String, List, [], Option, none}

pub record TaskRequest : Type 0 where
  pub id : String

pub record ExecRequest : Type 0 where
  pub id : String
  pub exec_id : String

pub record CreateTaskRequest : Type 0 where
  pub id : String
  pub bundle : String
  pub rootfs : List String
  pub terminal : Bool
  pub stdin : String
  pub stdout : String
  pub stderr : String
  pub checkpoint : String
  pub parent_checkpoint : String
  pub options : Option String

pub record CheckpointTaskRequest : Type 0 where
  pub id : String
  pub path : String
  pub options : Option String

pub record KillRequest : Type 0 where
  pub id : String
  pub exec_id : String
  pub signal : ℕ
  pub all : Bool

pub record ExecProcessRequest : Type 0 where
  pub id : String
  pub exec_id : String
  pub terminal : Bool
  pub stdin : String
  pub stdout : String
  pub stderr : String
  pub spec : Option String

pub record ResizePtyRequest : Type 0 where
  pub id : String
  pub exec_id : String
  pub width : ℕ
  pub height : ℕ

pub record CloseIoRequest : Type 0 where
  pub id : String
  pub exec_id : String
  pub stdin : Bool

pub record UpdateTaskRequest : Type 0 where
  pub id : String
  pub resources : Option String
  pub annotations : List (String × String)

pub record ShutdownRequest : Type 0 where
  pub id : String
  pub now : Bool

pub record StateResponse : Type 0 where
  pub id : String
  pub bundle : String
  pub pid : ℕ
  pub status : ℕ
  pub stdin : String
  pub stdout : String
  pub stderr : String
  pub terminal : Bool
  pub exit_status : ℕ
  pub exited_at : Option ℕ
  pub exec_id : String

pub record PidResponse : Type 0 where
  pub pid : ℕ

pub record DeleteResponse : Type 0 where
  pub pid : ℕ
  pub exit_status : ℕ
  pub exited_at : Option ℕ

pub record PidsResponse : Type 0 where
  pub processes : List ℕ

pub record WaitResponse : Type 0 where
  pub exit_status : ℕ
  pub exited_at : Option ℕ

pub record StatsResponse : Type 0 where
  pub stats : Option String

pub record ConnectResponse : Type 0 where
  pub shim_pid : ℕ
  pub task_pid : ℕ
  pub version : String

-- What the getters of a nil response give.
abbrev pub no_state_response : StateResponse
no_state_response = record {
  id = "";
  bundle = "";
  pid = 0;
  status = 0;
  stdin = "";
  stdout = "";
  stderr = "";
  terminal = false;
  exit_status = 0;
  exited_at = none;
  exec_id = "";
}

abbrev pub no_pid_response : PidResponse
no_pid_response = record { pid = 0 }

abbrev pub no_delete_response : DeleteResponse
no_delete_response = record { pid = 0; exit_status = 0; exited_at = none }

abbrev pub no_pids_response : PidsResponse
no_pids_response = record { processes = [] }

abbrev pub no_wait_response : WaitResponse
no_wait_response = record { exit_status = 0; exited_at = none }

abbrev pub no_stats_response : StatsResponse
no_stats_response = record { stats = none }

abbrev pub no_connect_response : ConnectResponse
no_connect_response = record { shim_pid = 0; task_pid = 0; version = "" }

-- The handlers of a service over a state: a response, or nil, and an error. An `Empty` response is
-- passed on as it is.
pub record TaskService (W : Type 0) : Type 0 where
  pub state : W → ExecRequest → (Option StateResponse × Option String) × W
  pub create : W → CreateTaskRequest → (Option PidResponse × Option String) × W
  pub start : W → ExecRequest → (Option PidResponse × Option String) × W
  pub delete : W → ExecRequest → (Option DeleteResponse × Option String) × W
  pub pids : W → TaskRequest → (Option PidsResponse × Option String) × W
  pub pause : W → TaskRequest → (Option (Unit {0}) × Option String) × W
  pub resume : W → TaskRequest → (Option (Unit {0}) × Option String) × W
  pub checkpoint : W → CheckpointTaskRequest → (Option (Unit {0}) × Option String) × W
  pub kill : W → KillRequest → (Option (Unit {0}) × Option String) × W
  pub exec : W → ExecProcessRequest → (Option (Unit {0}) × Option String) × W
  pub resize_pty : W → ResizePtyRequest → (Option (Unit {0}) × Option String) × W
  pub close_io : W → CloseIoRequest → (Option (Unit {0}) × Option String) × W
  pub update : W → UpdateTaskRequest → (Option (Unit {0}) × Option String) × W
  pub wait : W → ExecRequest → (Option WaitResponse × Option String) × W
  pub stats : W → TaskRequest → (Option StatsResponse × Option String) × W
  pub connect : W → TaskRequest → (Option ConnectResponse × Option String) × W
  pub shutdown : W → ShutdownRequest → (Option (Unit {0}) × Option String) × W
