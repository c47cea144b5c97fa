-- ===== src/Launch/Options.antt =====
-- create.go and process.go: the options of a container, and what they become.
use Prim.Native.String.{◌++◌ as text_append}
use containerd_shim_systemd.Prelude.{
  ℕ, Bool, false, not, String, List, [], ◌∷◌, ◌++◌, Option, none, some, map, str_eq, if◌then◌else◌,
}

-- `CreateOptions`.
pub record CreateOptions : Type 0 where
  pub log_mode : String
  pub sd_notify_enable : Bool
  pub binary_name : String
  pub root : String
  pub no_pivot_root : Bool
  pub open_tcp : Bool
  pub external_unix_sockets : Bool
  pub terminal : Bool
  pub file_locks : Bool
  pub empty_namespaces : List String
  pub cgroups_mode : String
  pub no_new_keyring : Bool
  pub io_uid : ℕ
  pub io_gid : ℕ
  pub criu_work_path : String
  pub criu_image_path : String
  pub systemd_cgroup : Bool
  pub shim_cgroup : String

-- The zero value, with a log mode: what an exec has.
unfoldable pub default_options : String → CreateOptions
default_options log_mode = record {
  log_mode = log_mode;
  sd_notify_enable = false;
  binary_name = "";
  root = "";
  no_pivot_root = false;
  open_tcp = false;
  external_unix_sockets = false;
  terminal = false;
  file_locks = false;
  empty_namespaces = [];
  cgroups_mode = "";
  no_new_keyring = false;
  io_uid = 0;
  io_gid = 0;
  criu_work_path = "";
  criu_image_path = "";
  systemd_cgroup = false;
  shim_cgroup = "";
}

-- The options of runc's shim, as far as they are read.
pub record RuncOptions : Type 0 where
  pub no_pivot_root : Bool
  pub no_new_keyring : Bool
  pub shim_cgroup : String
  pub io_uid : ℕ
  pub io_gid : ℕ
  pub binary_name : String
  pub root : String
  pub systemd_cgroup : Bool
  pub criu_image_path : String
  pub criu_work_path : String

-- What `unmarshalCreateOptions` gives.
pub data DecodedOptions : Type 0 where
  native_options : (log_mode : String) (sd_notify_enable : Bool) → DecodedOptions
  runc_options : RuncOptions → DecodedOptions
  other_options : DecodedOptions

-- The switch on the type of the options.
unfoldable pub decoded_options : DecodedOptions → CreateOptions
unfolding default_options
decoded_options (native_options log_mode sd_notify_enable) = record (default_options log_mode) {
  sd_notify_enable = sd_notify_enable;
}
decoded_options (runc_options v) = record (default_options "") {
  no_pivot_root = v.no_pivot_root;
  no_new_keyring = v.no_new_keyring;
  io_uid = v.io_uid;
  io_gid = v.io_gid;
  binary_name = v.binary_name;
  root = v.root;
  systemd_cgroup = v.systemd_cgroup;
  criu_image_path = v.criu_image_path;
  criu_work_path = v.criu_work_path;
  shim_cgroup = v.shim_cgroup;
}
decoded_options other_options = default_options ""

-- The options of a new container: those of the request, if it has any, and the defaults of the service
-- for its root and its log mode.
unfoldable pub create_options : String → String → Option DecodedOptions → CreateOptions
create_options service_root default_log_mode decoded =
    let opts : CreateOptions = elim decoded [
      | none ↦ default_options ""
      | some v ↦ decoded_options v
    ] in
    record opts {
      root = if str_eq opts.root "" then text_append service_root "/runc" else opts.root;
      log_mode = if str_eq opts.log_mode "" then default_log_mode else opts.log_mode;
    }

abbrev flag_if : Bool → String → List String
flag_if b flag = if b then flag ∷ [] else []

-- `RestoreArgs`.
unfoldable pub restore_args : CreateOptions → List String
restore_args c =
    flag_if c.no_pivot_root "--no-pivot"
    ++ (flag_if c.open_tcp "--tcp-established"
        ++ (flag_if c.file_locks "--file-locks"
            ++ (flag_if c.external_unix_sockets "--ext-unix-sk"
                ++ (map (λ ns. text_append "--empty-ns=" ns) c.empty_namespaces
                    ++ flag_if (not (str_eq c.cgroups_mode ""))
                        (text_append "--manage-cgroups-mode=" c.cgroups_mode)))))
