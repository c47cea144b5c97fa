-- ===== src/Examples/Boot.antt =====
-- Runs of the installation, of the opening of the service, and of the delete command.
use containerd_shim_systemd.Prelude.{
  ℕ, ◌≡◌, true, false, [], ◌∷◌, none, some, str_eq, if◌then◌else◌,
}
use containerd_shim_systemd.Task.{Shim}
use containerd_shim_systemd.Boot.Install.{
  InstallConfig, Host, wrote, reloaded, started, service_file, socket_file, socket_unit_name,
  service_unit, install_units,
}
use containerd_shim_systemd.Boot.Installed.{is_socket_up, install_units-socket_up}
use containerd_shim_systemd.Boot.Open.{Buses, open_service, left_open, open_service-closed}
use containerd_shim_systemd.Boot.Commands.{Commands}

-- The file of the service cannot be written.
abbrev half_writable : Host
half_writable = record {
  World = ℕ;
  connect = λ w. (true, w);
  executable = λ w. some "/bin/shim";
  write_file = λ w f text. (if str_eq f service_file then false else true, w);
  remove_file = λ w f. w;
  reload = λ w. (true, w);
  start_unit = λ w n. (true, w);
  start_result = λ w. (some "done", w);
  stop_unit = λ w n. (true, w);
  disable_units = λ w. (true, w);
}

abbrev cfg : InstallConfig
cfg = record {
  trace_flags = "";
  root = "/run/shim";
  addr = "/run/containerd.sock";
  ttrpc_addr = "/run/containerd.sock.ttrpc";
  debug = false;
  log_mode = "stdio";
  socket = "/run/shim.sock";
  no_new_namespace = false;
}

install_units-socket_up_example :
    let w' = (half_writable.write_file 0 service_file (service_unit "/bin/shim" cfg)).1 in
    let (_, done, reported) = install_units half_writable "/bin/shim" cfg 0 in
    (reported ≡ is_socket_up half_writable w' cfg)
    × (reported ≡ true
        → done ≡ wrote service_file ∷ wrote socket_file ∷ reloaded ∷ started socket_unit_name ∷ [])
install_units-socket_up_example = install_units-socket_up half_writable "/bin/shim" cfg 0

-- The root directory cannot be made.
abbrev rootless : Buses
rootless = record {
  World = ℕ;
  dial_private = λ w. (true, w);
  dial_pin = λ w. (true, w);
  look_path_runc = λ w. some "/bin/runc";
  executable = λ w. "/bin/shim";
  mkdir_all = λ w p. (false, w);
}

open_service-closed_example :
    let r = open_service rootless 0 "/run/shim" in left_open rootless r.0 r.1 ≡ (false, false)
open_service-closed_example = open_service-closed rootless 0 "/run/shim"

abbrev commands : Commands ℕ
commands = record {
  look_path = λ n. some n;
  runc_features = λ w p. none;
  is_features = λ t. true;
  read_mounts = λ w p. none;
  mkdir = λ w p. (true, w);
  mount_all = λ w m p. (true, w);
  unmount_all = λ w p. w;
  remove_bundle = λ w p. w;
  open_log = λ w p. none;
  mkfifo = λ w p. (true, w);
  remove_log = λ w p. w;
}

abbrev shim : Shim ℕ
shim = record { world = 0; channel = []; calls = [] }
