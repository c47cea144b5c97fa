-- ===== src/Launch/Setup.antt =====
-- create.go: the fields of the container that `Service.Create` makes, and of the exec that
-- `Service.Exec` makes.
use Prim.Native.String.{◌++◌ as text_append}
use containerd_shim_systemd.Prelude.{
  Bool, false, ◌||◌, String, Option, none, some, str_eq, if◌then◌else◌,
}
use containerd_shim_systemd.Create.{CreateRequest}
use containerd_shim_systemd.Launch.Options.{
  CreateOptions, DecodedOptions, default_options, create_options,
}
use containerd_shim_systemd.Launch.Properties.{InitSetup, ExecSetup}

-- What `Service` keeps of its configuration.
pub record ServiceSetup : Type 0 where
  pub runc_bin : String
  pub debug : Bool
  pub root : String
  pub no_new_namespace : Bool
  pub default_log_mode : String
  pub exe : String

-- Whether the root file system of the spec is shared; `none` is a spec with no part for Linux.
abbrev is_shared : Option String → Bool
is_shared none = false
is_shared (some propagation) = str_eq propagation "shared"

module _ (look_path : String → Option String) where
  -- The binary of runc: that of the options, looked up, or the service's.
  unfoldable pub runc_command : ServiceSetup → CreateOptions → Option String
  runc_command s opts =
      if str_eq opts.binary_name "" then some s.runc_bin else look_path opts.binary_name

  -- The container of `Service.Create`; `none` is a binary that is not found.
  unfoldable pub container_setup :
      ServiceSetup → CreateRequest → Bool → Option DecodedOptions → Option String → Option InitSetup
  container_setup s q has_rootfs decoded propagation =
      let opts = create_options s.root s.default_log_mode decoded in
      elim (runc_command s opts) [
        | none ↦ none
        | some command ↦ some (record {
          base = record {
            ns = q.ns;
            id = q.id;
            exe = s.exe;
            root = q.bundle;
            stdin = q.stdin;
            stdout = q.stdout;
            stderr = q.stderr;
            terminal = q.terminal;
            opts = opts;
            runc = record {
              command = command;
              debug = s.debug;
              systemd_cgroup = opts.systemd_cgroup;
              root = text_append opts.root (text_append "/" q.ns);
              log = if s.debug then text_append q.bundle "/init-runc-debug.log" else "";
            };
            shim_cgroup = opts.shim_cgroup;
          };
          bundle = q.bundle;
          has_rootfs = has_rootfs;
          no_new_namespace = s.no_new_namespace || is_shared propagation;
          checkpoint = q.checkpoint;
        })
      ]

-- What `Service.Exec` takes from the request.
pub record ExecRequest : Type 0 where
  pub exec_id : String
  pub stdin : String
  pub stdout : String
  pub stderr : String
  pub terminal : Bool

-- The exec of `Service.Exec`.
unfoldable pub exec_setup : ServiceSetup → InitSetup → ExecRequest → ExecSetup
unfolding default_options
exec_setup s parent q =
    let state_dir = text_append parent.bundle (text_append "/execs/" q.exec_id) in
    record {
      base = record {
        ns = parent.base.ns;
        id = q.exec_id;
        exe = s.exe;
        root = parent.base.root;
        stdin = q.stdin;
        stdout = q.stdout;
        stderr = if q.terminal then "" else q.stderr;
        terminal = q.terminal;
        opts = default_options s.default_log_mode;
        runc = record {
          command = parent.base.runc.command;
          debug = s.debug;
          systemd_cgroup = parent.base.runc.systemd_cgroup;
          root = parent.base.runc.root;
          log = text_append state_dir "/runc-debug.log";
        };
        shim_cgroup = "";
      };
      exec_id = q.exec_id;
      parent_id = parent.base.id;
      parent_bundle = parent.bundle;
    }
