-- ===== src/Requests/Control.antt =====
-- manager.go and process.go: the requests that pass on to systemd, to runc or to the cgroups of a
-- process: Kill, Pause, Resume, Pids, Checkpoint, Connect, Stats and Update.
use Prim.Native.String.{◌++◌ as text_append}
use containerd_shim_systemd.Prelude.{
  ℕ, ◌%◌, ◌^◌, Bool, true, false, not, String, List, [], ◌∷◌, Option, none, some, map, str_eq, ◌==◌,
  if◌then◌else◌,
}
use containerd_shim_systemd.State.{has_exited}
use containerd_shim_systemd.Process.{process_state}
use containerd_shim_systemd.Outside.{Outside, signals}
use containerd_shim_systemd.Task.{ExecProcess, InitProcess, exec_name, init_name, Shim}
use containerd_shim_systemd.Teardown.{Outcome, ok, failed_precondition, failed, called}
use containerd_shim_systemd.Registry.{Registry, get_process}

-- What `KillUnitWithTarget` answers, as far as `Kill` tells the errors apart.
pub data KillAnswer : Type 0 where
  delivered no_main_process kill_failed : KillAnswer

-- What `runc state` answers, as far as `Kill` tells the errors apart.
pub data RuncState : Type 0 where
  known does_not_exist state_failed : RuncState

-- `runc.CheckpointOpts`.
pub record CheckpointOpts : Type 0 where
  pub image_path : String
  pub work_dir : String
  pub allow_open_tcp : Bool
  pub allow_external_unix_sockets : Bool
  pub allow_terminal : Bool
  pub file_locks : Bool
  pub empty_namespaces : List String
  pub cgroups : String

-- `options.CheckpointOptions` of the runc shim: its `Exit` flag, and what becomes `CheckpointOpts`.
pub record CheckpointOptions : Type 0 where
  pub exit : Bool
  pub open_tcp : Bool
  pub external_unix_sockets : Bool
  pub terminal : Bool
  pub file_locks : Bool
  pub empty_namespaces : List String
  pub cgroups_mode : String
  pub image_path : String
  pub work_path : String

-- What `typeurl.UnmarshalAny` gives.
pub data AnyOptions : Type 0 where
  undecodable other_type : AnyOptions
  checkpoint_options : CheckpointOptions → AnyOptions

-- What these requests ask of systemd, of runc, of the file system and of the cgroups, over the worlds
-- of the rest. Nothing is assumed of the answers.
pub record Control (W : Type 0) : Type 0 where
  -- `KillUnitWithTarget`, of all processes of the unit or of the main one.
  pub kill_unit_with_target : W → String → Bool → ℕ → KillAnswer × W
  pub runc_state : W → String → RuncState × W
  -- `ListUnitsByNamesContext`: the names and the active states; `none` is an error.
  pub list_units : W → String → Option (List (String × String)) × W
  pub runc_pause : W → String → Bool × W
  pub runc_resume : W → String → Bool × W
  pub runc_ps : W → String → Option (List ℕ) × W
  pub mkdir_all : W → String → Bool × W
  -- `runc checkpoint`, with `LeaveRunning` or not.
  pub runc_checkpoint : W → String → CheckpointOpts → Bool → Bool × W
  -- `json.Unmarshal` of resources, and `runc update`.
  pub is_resources : String → Bool
  pub runc_update : W → String → String → Bool × W
  -- `os.Getpid()`.
  pub shim_pid : ℕ
  -- The cgroups of a process: the mode, `PidGroupPath`, `Load` of a path, `Load` of the cgroup of a
  -- pid, and `Stat` of either; the statistics are what `MarshalAnyToProto` makes of them.
  pub is_unified : Bool
  pub pid_group_path : W → ℕ → Option String
  pub load_cgroup2 : W → String → Bool
  pub stat_cgroup2 : W → String → Option String
  pub load_cgroup1 : W → ℕ → Bool
  pub stat_cgroup1 : W → ℕ → Option String

-- A unit that is listed under the name and is not running.
unfoldable pub not_running : String → List (String × String) → Bool
not_running name [] = false
not_running name ((n, active) ∷ us) =
    let rest = not_running name us in
    if not (str_eq n name) then rest else if not (str_eq active "running") then true else rest

abbrev pub is_kill_error : KillAnswer → Bool
is_kill_error KillAnswer.delivered = false
is_kill_error _ = true

-- The result of a call that worked or not.
abbrev pub done_or_failed : Bool → Outcome (Unit {0})
done_or_failed done = if done then ok tt else failed

-- The units that `Kill` lists, with the test as it stands: it looks at the error of the kill, which is
-- set here, and not at the error of the listing.
unfoldable pub look_at_units :
    KillAnswer → String → Option (List (String × String)) → Option (Outcome (Unit {0}))
look_at_units answer name units = if is_kill_error answer then some failed else elim units [
  | none ↦ none
  | some [] ↦ none
  | some (u ∷ us) ↦ if not_running name (u ∷ us) then some failed_precondition else some failed
]

module _ (o : Outside) (k : Control (o.World)) where
  open o use {World}

  -- `execProcess.Kill`, which signals the main process whatever `all` is.
  unfoldable pub kill_exec_process :
      Shim World → ExecProcess → ℕ → Bool → Shim World × Option (Outcome (Unit {0}))
  kill_exec_process s p sig all =
      let (answer, w) = k.kill_unit_with_target s.world (exec_name p) false sig in
      (
        called s (signals (exec_name p) false sig) w,
        some (done_or_failed (not (is_kill_error answer))),
      )

  -- `initProcess.Kill` where systemd has refused the signal.
  unfoldable pub kill_refused :
      Shim World → InitProcess → KillAnswer → Shim World × Option (Outcome (Unit {0}))
  kill_refused s p answer =
      let (state, w) = k.runc_state s.world p.process.id in
      let (units, w') = k.list_units w (init_name p) in
      elim state [
        | does_not_exist ↦ (record s { world = w }, none)
        | _ ↦ (record s { world = w' }, look_at_units answer (init_name p) units)
      ]

  -- `initProcess.Kill`; `none` is `errdefs.ErrNotFound`.
  unfoldable pub kill_init_process :
      Shim World → InitProcess → ℕ → Bool → Shim World × Option (Outcome (Unit {0}))
  kill_init_process s p sig all =
      let (answer, w) = k.kill_unit_with_target s.world (init_name p) all sig in
      let s' = called s (signals (init_name p) all sig) w in
      let asks = kill_refused s' p answer in
      if p.process.state.pid == 0
      then (s, some failed_precondition)
      else if has_exited (process_state p.process)
      then (s, none)
      else elim answer [
        | delivered ↦ (s', some (ok tt))
        | no_main_process ↦ (s', none)
        | kill_failed ↦ asks
      ]

  -- `Service.Kill`; no request of this file changes a process.
  unfoldable pub kill_request :
      Registry World → String → String → ℕ → Bool → Registry World × Option (Outcome (Unit {0}))
  kill_request r key exec_id sig all = elim (get_process r.processes key) [
    | none ↦ (r, none)
    | some p ↦
        if str_eq exec_id ""
        then (let (s, out) = kill_init_process r.shim p sig all in (record r { shim = s }, out))
        else elim (get_process p.execs exec_id) [
          | none ↦ (r, none)
          | some e ↦
              let (s, out) = kill_exec_process r.shim e sig all in (record r { shim = s }, out)
        ]
  ]

  abbrev in_world : Registry World → World → Registry World
  in_world r w = record r { shim = record (r.shim) { world = w } }

  -- A request for a container that one call serves.
  abbrev pub pass_on :
      {A : Type 0}
      → (World → InitProcess → Outcome A × World)
      → Registry World
      → String
      → Registry World × Option (Outcome A)
  pass_on call r key = elim (get_process r.processes key) [
    | none ↦ (r, none)
    | some p ↦ let (out, w) = call r.shim.world p in (in_world r w, some out)
  ]

  -- `Service.Pause` and `Service.Resume`.
  unfoldable pub pause_request :
      Registry World → String → Registry World × Option (Outcome (Unit {0}))
  pause_request r key =
      pass_on (λ w p. let (done, w') = k.runc_pause w p.process.id in (done_or_failed done, w')) r
        key

  unfoldable pub resume_request :
      Registry World → String → Registry World × Option (Outcome (Unit {0}))
  resume_request r key =
      pass_on (λ w p. let (done, w') = k.runc_resume w p.process.id in (done_or_failed done, w')) r
        key

  -- `Service.Pids`: a pid becomes a `uint32`.
  unfoldable pub pids : World → InitProcess → Outcome (List ℕ) × World
  pids w p =
      let (ls, w') = k.runc_ps w p.process.id in
      elim ls [ none ↦ (failed, w') | some ps ↦ (ok (map (λ n. n % 2 ^ 32) ps), w') ]

  unfoldable pub pids_request : Registry World → String → Registry World × Option (Outcome (List ℕ))
  pids_request r key = pass_on pids r key

  -- The options of `initProcess.Checkpoint` before the working directory is chosen.
  unfoldable pub checkpoint_opts : CheckpointOptions → CheckpointOpts
  checkpoint_opts v = record {
    image_path = v.image_path;
    work_dir = v.work_path;
    allow_open_tcp = v.open_tcp;
    allow_external_unix_sockets = v.external_unix_sockets;
    allow_terminal = v.terminal;
    file_locks = v.file_locks;
    empty_namespaces = v.empty_namespaces;
    cgroups = v.cgroups_mode;
  }

  abbrev pub no_options : CheckpointOptions
  no_options = record {
    exit = false;
    open_tcp = false;
    external_unix_sockets = false;
    terminal = false;
    file_locks = false;
    empty_namespaces = [];
    cgroups_mode = "";
    image_path = "";
    work_path = "";
  }

  -- `initProcess.Checkpoint` once the options are decoded.
  unfoldable pub checkpoint_with :
      World → InitProcess → CheckpointOptions → Outcome (Unit {0}) × World
  checkpoint_with w p v =
      let opts = checkpoint_opts v in
      let work_dir = text_append p.bundle "/criu-work" in
      let (made, w') = k.mkdir_all w work_dir in
      let in_bundle =
        k.runc_checkpoint w' p.process.id (record opts { work_dir = work_dir }) (not v.exit) in
      let given = k.runc_checkpoint w p.process.id opts (not v.exit) in
      if not (str_eq opts.work_dir "")
      then (done_or_failed given.0, given.1)
      else if not made
      then (failed, w')
      else (done_or_failed in_bundle.0, in_bundle.1)

  -- `initProcess.Checkpoint`.
  unfoldable pub checkpoint : Option AnyOptions → World → InitProcess → Outcome (Unit {0}) × World
  checkpoint none w p = checkpoint_with w p no_options
  checkpoint (some undecodable) w p = (failed, w)
  checkpoint (some other_type) w p = (failed, w)
  checkpoint (some (checkpoint_options v)) w p = checkpoint_with w p v

  -- `Service.Checkpoint`, which does not read the path of the request.
  unfoldable pub checkpoint_request :
      Option AnyOptions
      → String
      → Registry World
      → String
      → Registry World × Option (Outcome (Unit {0}))
  checkpoint_request options path r key = pass_on (checkpoint options) r key

  -- `Service.Connect`: the pids of the task and of the shim.
  unfoldable pub connect_request :
      Registry World → String → Registry World × Option (Outcome (ℕ × ℕ))
  connect_request r key = pass_on (λ w p. (ok (p.process.state.pid, k.shim_pid), w)) r key

  abbrev or_failed : Option String → Outcome String
  or_failed none = failed
  or_failed (some text) = ok text

  -- The statistics of `Service.Stats`.
  unfoldable pub stats : World → InitProcess → Outcome String × World
  stats w p =
      let pid = p.process.state.pid in
      let v1 : Outcome String =
        if k.load_cgroup1 w pid then or_failed (k.stat_cgroup1 w pid) else failed in
      let v2 : Outcome String = elim (k.pid_group_path w pid) [
        | none ↦ failed
        | some path ↦ if k.load_cgroup2 w path then or_failed (k.stat_cgroup2 w path) else failed
      ] in
      (if k.is_unified then v2 else v1, w)

  unfoldable pub stats_request : Registry World → String → Registry World × Option (Outcome String)
  stats_request r key = pass_on stats r key

  -- `Service.Update`.
  unfoldable pub update : String → World → InitProcess → Outcome (Unit {0}) × World
  update resources w p =
      let (done, w') = k.runc_update w p.process.id resources in
      if k.is_resources resources then (done_or_failed done, w') else (failed, w)

  unfoldable pub update_request :
      String → Registry World → String → Registry World × Option (Outcome (Unit {0}))
  update_request resources r key = pass_on (update resources) r key

  -- `Service.Shutdown` and `Service.CloseIO`, which do nothing.
  unfoldable pub shutdown_request : Registry World → Registry World
  shutdown_request r = r

  unfoldable pub close_io_request : Registry World → Registry World
  close_io_request r = r
