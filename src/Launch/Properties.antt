-- ===== src/Launch/Properties.antt =====
-- start.go, create.go and pty.go: the properties of the transient units, and the command lines in them.
use Prim.Native.String.{◌++◌ as text_append}
use containerd_shim_systemd.Prelude.{
  Bool, true, false, not, ◌||◌, String, List, [], ◌∷◌, ◌++◌, str_eq, if◌then◌else◌,
}
use containerd_shim_systemd.Task.{unit_name}
use containerd_shim_systemd.Launch.Options.{CreateOptions, restore_args}

-- `runc.Runc`, as far as it makes command lines.
pub record Runc : Type 0 where
  pub command : String
  pub debug : Bool
  pub systemd_cgroup : Bool
  pub root : String
  pub log : String

-- The fields of a `process` that are set when it is made and that its units are made of; those of an
-- `initProcess` and of an `execProcess` follow.
pub record Setup : Type 0 where
  pub ns : String
  pub id : String
  pub exe : String
  pub root : String
  pub stdin : String
  pub stdout : String
  pub stderr : String
  pub terminal : Bool
  pub opts : CreateOptions
  pub runc : Runc
  pub shim_cgroup : String

pub record InitSetup : Type 0 where
  pub base : Setup
  pub bundle : String
  pub has_rootfs : Bool
  pub no_new_namespace : Bool
  pub checkpoint : String

pub record ExecSetup : Type 0 where
  pub base : Setup
  pub exec_id : String
  pub parent_id : String
  pub parent_bundle : String

-- `execCommand`.
pub record ExecCommand : Type 0 where
  pub path : String
  pub args : List String
  pub ignore_fail : Bool

-- The values of `systemd.Property` that the shim makes.
pub data PropertyValue : Type 0 where
  text : String → PropertyValue
  switch : Bool → PropertyValue
  texts : List String → PropertyValue
  commands : List ExecCommand → PropertyValue

pub record Property : Type 0 where
  pub name : String
  pub value : PropertyValue

-- `strconv.FormatBool`.
unfoldable pub format_bool : Bool → String
format_bool b = if b then "true" else "false"

abbrev equals : String → Bool → String
equals flag b = text_append flag (format_bool b)

-- `propExecCommand`.
unfoldable pub prop_exec_command : String → List ExecCommand → Property
prop_exec_command name cmds = record { name = name; value = commands cmds }

abbrev prop_text : String → String → Property
prop_text name value = record { name = name; value = text value }

abbrev prop_switch : String → Bool → Property
prop_switch name value = record { name = name; value = switch value }

abbrev prop_texts : String → List String → Property
prop_texts name value = record { name = name; value = texts value }

abbrev plain_command : List String → String → ExecCommand
plain_command args path = record { path = path; args = args; ignore_fail = false }

-- `runcCmd`.
unfoldable pub runc_cmd : Setup → List String → List String
runc_cmd p cmd =
    (p.runc.command
      ∷ equals "--debug=" p.runc.debug
      ∷ equals "--systemd-cgroup=" p.opts.systemd_cgroup
      ∷ "--root"
      ∷ p.runc.root
      ∷ [])
    ++ ((if p.runc.debug then "--log" ∷ p.runc.log ∷ [] else []) ++ cmd)

-- `unitType`.
unfoldable pub unit_type : Setup → String
unit_type p = if p.opts.sd_notify_enable then "notify" else "forking"

abbrev pub has_terminal : Setup → Bool
has_terminal p = p.terminal || p.opts.terminal

-- The paths of the files.
unfoldable pub init_pid_file : InitSetup → String
init_pid_file p = text_append p.base.root "/init.pid"

unfoldable pub mount_config_path : InitSetup → String
mount_config_path p = text_append p.bundle "/mounts.pb"

unfoldable pub exec_state_dir : ExecSetup → String
exec_state_dir p = text_append p.parent_bundle (text_append "/execs/" p.exec_id)

unfoldable pub exec_pid_file : ExecSetup → String
exec_pid_file p = text_append (exec_state_dir p) "/pid"

unfoldable pub process_file_path : ExecSetup → String
process_file_path p = text_append (exec_state_dir p) "/process.json"

unfoldable pub init_exit_state_path : InitSetup → String
init_exit_state_path p = text_append p.bundle "/init_exit_status.json"

unfoldable pub exec_exit_state_path : ExecSetup → String
exec_exit_state_path p = text_append (exec_state_dir p) "/exit_status.json"

-- The environment of the two kinds of unit.
unfoldable pub unit_env : Setup → String → String → String → List String
unit_env p pid_file name exit_state_path =
    (text_append "PIDFILE=" pid_file
      ∷ text_append "STDIN_FIFO=" p.stdin
      ∷ text_append "STDOUT_FIFO=" p.stdout
      ∷ text_append "STDERR_FIFO=" p.stderr
      ∷ text_append "UNIT_NAME=" name
      ∷ text_append "EXIT_STATE_PATH=" exit_state_path
      ∷ [])
    ++ (if str_eq p.shim_cgroup "" then [] else text_append "SHIM_CGROUP=" p.shim_cgroup ∷ [])

-- How the root file system is mounted: by commands of the unit in the namespace of the host, or by the
-- create helper in one of its own. The properties, and the flags of the helper.
unfoldable pub rootfs_props : InitSetup → List Property × List String
rootfs_props p =
    let exe = p.base.exe in
    if not p.has_rootfs
    then ([], [])
    else if p.no_new_namespace
    then (
      prop_exec_command "ExecStartPre"
            (plain_command (exe ∷ "mount" ∷ mount_config_path p ∷ []) exe ∷ [])
          ∷ prop_exec_command "ExecStopPost" (
              record {
                path = exe;
                args = exe ∷ "unmount" ∷ text_append p.bundle "/rootfs" ∷ [];
                ignore_fail = true;
              }
              ∷ [])
          ∷ [],
      [],
    )
    else (prop_switch "PrivateMounts" true ∷ [], text_append "--mounts=" (mount_config_path p) ∷ [])

abbrev tty_flag : Setup → List String
tty_flag p = if has_terminal p then "--tty" ∷ [] else []

-- `initProcess.startProperties`.
unfoldable pub init_start_properties : InitSetup → List String → List Property
init_start_properties p rcmd =
    let b = p.base in
    let (props, flags) = rootfs_props p in
    let prefix =
      b.exe ∷ equals "--debug=" b.runc.debug ∷ text_append "--bundle=" p.bundle ∷ "create" ∷ [] in
    let argv = (prefix ++ (flags ++ tty_flag b)) ++ runc_cmd b (rcmd ++ b.id ∷ []) in
    (prop_text "Type" (unit_type b)
      ∷ prop_switch "RemainAfterExit" false
      ∷ prop_text "WorkingDirectory" p.bundle
      ∷ prop_text "PIDFile" (init_pid_file p)
      ∷ prop_switch "Delegate" true
      ∷ [])
    ++ (props
        ++ (prop_exec_command "ExecStart" (plain_command argv b.exe ∷ [])
            ∷ prop_texts "Environment"
                (unit_env b (init_pid_file p) (unit_name b.ns b.id "init") (init_exit_state_path p))
            ∷ []))

-- `execProcess.startProperties`, with the socket of the terminal.
unfoldable pub exec_start_properties : ExecSetup → String → List Property
exec_start_properties p tty_sock =
    let b = p.base in
    let prefix =
      b.exe
      ∷ equals "--debug=" b.runc.debug
      ∷ text_append "--bundle=" p.parent_bundle
      ∷ "create"
      ∷ [] in
    let cmd =
      "exec"
      ∷ "--process"
      ∷ process_file_path p
      ∷ text_append "--pid-file=" (exec_pid_file p)
      ∷ "--detach"
      ∷ [] in
    let socket =
      if has_terminal b then "-t" ∷ text_append "--console-socket=" tty_sock ∷ [] else [] in
    let argv = (prefix ++ tty_flag b) ++ runc_cmd b ((cmd ++ socket) ++ p.parent_id ∷ []) in
    let name = unit_name b.ns (text_append p.parent_id (text_append "-" b.id)) "exec" in
    prop_text "Type" "notify"
    ∷ prop_switch "RemainAfterExit" false
    ∷ prop_text "WorkingDirectory" p.parent_bundle
    ∷ prop_text "PIDFile" (exec_pid_file p)
    ∷ prop_switch "GuessMainPID" true
    ∷ prop_switch "Delegate" true
    ∷ prop_exec_command "ExecStart" (plain_command argv b.exe ∷ [])
    ∷ prop_texts "Environment" (unit_env b (exec_pid_file p) name (exec_exit_state_path p))
    ∷ []

-- The command of `initProcess.Create`.
unfoldable pub create_args : InitSetup → String → List String
create_args p tty_sock =
    let b = p.base in
    ("create"
      ∷ text_append "--bundle=" p.bundle
      ∷ equals "--no-pivot=" b.opts.no_pivot_root
      ∷ equals "--no-new-keyring=" b.opts.no_new_keyring
      ∷ text_append "--pid-file=" (init_pid_file p)
      ∷ [])
    ++ (if has_terminal b then text_append "--console-socket=" tty_sock ∷ [] else [])

-- The command of `createRestore`, for a container whose terminal flag is that of its spec.
unfoldable pub restore_command : InitSetup → String → List String
restore_command p tty_sock =
    let b = p.base in
    let work_path =
      if str_eq b.opts.criu_work_path ""
      then text_append b.root "/criu-work"
      else b.opts.criu_work_path in
    let opts =
      if has_terminal b then record (b.opts) { external_unix_sockets = true } else b.opts in
    (("restore"
        ∷ text_append "--image-path=" p.checkpoint
        ∷ text_append "--work-path=" work_path
        ∷ text_append "--bundle=" p.bundle
        ∷ equals "--no-pivot=" b.opts.no_pivot_root
        ∷ "--no-subreaper"
        ∷ [])
      ++ (if has_terminal b
          then "--detach" ∷ text_append "--console-socket=" tty_sock ∷ []
          else []))
    ++ restore_args opts

-- `ttyServiceProperties`.
unfoldable pub tty_service_properties : Setup → String → String → List Property
tty_service_properties p sock_path log_path =
    let cgroup =
      if str_eq p.shim_cgroup "" then [] else text_append "SHIM_CGROUP=" p.shim_cgroup ∷ [] in
    let env = ("_TTY_HANDSHAKE=1" ∷ text_append "_TTY_SOCKET_PATH=" sock_path ∷ []) ++ cgroup in
    (prop_text "Type" "notify"
      ∷ prop_exec_command "ExecStart" (plain_command (p.exe ∷ "tty-handshake" ∷ []) p.exe ∷ [])
      ∷ prop_texts "Environment" env
      ∷ prop_text "StandardErrorFile" log_path
      ∷ [])
    ++ ((if str_eq p.stdin "" then [] else prop_text "StandardInputFile" p.stdin ∷ [])
        ++ (if str_eq p.stdout "" then [] else prop_text "StandardOutputFile" p.stdout ∷ []))
