-- ===== src/Boot/Install.antt =====
-- service.go: the units of the shim, and their installation.
use Prim.Native.String.{◌++◌ as text_append}
use containerd_shim_systemd.Prelude.{
  Bool, false, not, String, List, [], ◌∷◌, ◌++◌, Option, none, some, str_eq, if◌then◌else◌,
}

-- `installConfig`; the trace configuration is its flags.
pub record InstallConfig : Type 0 where
  pub trace_flags : String
  pub root : String
  pub addr : String
  pub ttrpc_addr : String
  pub debug : Bool
  pub log_mode : String
  pub socket : String
  pub no_new_namespace : Bool

abbrev pub service_name : String
service_name = "containerd-shim-systemd-v1"

abbrev pub service_file : String
service_file = "/etc/systemd/system/containerd-shim-systemd-v1.service"

abbrev pub socket_file : String
socket_file = "/etc/systemd/system/containerd-shim-systemd-v1.socket"

abbrev pub service_unit_name : String
service_unit_name = "containerd-shim-systemd-v1.service"

abbrev pub socket_unit_name : String
socket_unit_name = "containerd-shim-systemd-v1.socket"

abbrev format_bool : Bool → String
format_bool b = if b then "true" else "false"

abbrev joined : List String → String
joined [] = ""
joined (s ∷ ss) = text_append s (joined ss)

-- `serviceUnit`; the log mode stands in lower case.
unfoldable pub service_unit : String → InstallConfig → String
service_unit exe cfg = joined (
    "\n[Unit]\nDescription=containerd shim service that uses systemd to manage containers\n\n"
    ∷ "[Service]\nType=notify\nEnvironment=UNIT_NAME=%n\nExecStart="
    ∷ exe
    ∷ " --address="
    ∷ cfg.addr
    ∷ " serve --ttrpc-address="
    ∷ cfg.ttrpc_addr
    ∷ " --debug="
    ∷ format_bool cfg.debug
    ∷ " --root="
    ∷ cfg.root
    ∷ " --log-mode="
    ∷ cfg.log_mode
    ∷ " "
    ∷ cfg.trace_flags
    ∷ " --no-new-namespace="
    ∷ format_bool cfg.no_new_namespace
    ∷ "\n"
    ∷ [])

-- `socketUnit`.
unfoldable pub socket_unit : String → String
socket_unit addr = joined (
    "\n[Unit]\nDescription=containerd shim socket for containerd-shim-systemd-v1\n\n"
    ∷ "[Install]\nWantedBy = sockets.target\n\n[Socket]\nListenStream=" ∷ addr
    ∷ "\nSocketMode=0700\nPassCredentials=yes\nPassSecurity=yes\n" ∷ [])

-- What the installation asks of systemd and of the file system. Nothing is assumed of the answers.
pub record Host : Type 1 where
  pub World : Type 0
  pub connect : World → Bool × World
  -- `os.Executable`.
  pub executable : World → Option String
  pub write_file : World → String → String → Bool × World
  pub remove_file : World → String → World
  pub reload : World → Bool × World
  -- `StartUnitContext` and the result of its job; `none` is a context that is done first.
  pub start_unit : World → String → Bool × World
  pub start_result : World → Option String × World
  pub stop_unit : World → String → Bool × World
  -- `DisableUnitFilesContext` of both units.
  pub disable_units : World → Bool × World

-- What was done.
pub data Done : Type 0 where
  wrote removed started stopped : (name : String) → Done
  disabled reloaded : Done

module _ (h : Host) where
  open h use {World}

  -- The world, what was done to it, newest last, and whether nil is returned.
  abbrev Result : Type 0
  Result = World × List Done × Bool

  -- The last step of `install`: the start of the socket.
  unfoldable pub start_socket : World → List Done → World × List Done × Bool
  start_socket w log =
      let (began, w1) = h.start_unit w socket_unit_name in
      let (status, w2) = h.start_result w1 in
      let log' = log ++ started socket_unit_name ∷ [] in
      if not began
      then (w1, log', false)
      else elim status [ none ↦ (w2, log', false) | some text ↦ (w2, log', str_eq text "done") ]

  -- `install` from where the executable is known: whether the file of the service could be written is
  -- not looked at.
  unfoldable pub install_units : String → InstallConfig → World → World × List Done × Bool
  install_units exe cfg w =
      let (service, w1) = h.write_file w service_file (service_unit exe cfg) in
      let (socket, w2) = h.write_file w1 socket_file (socket_unit cfg.socket) in
      let log = wrote service_file ∷ wrote socket_file ∷ [] in
      let (fresh, w3) = h.reload w2 in
      let log' = log ++ reloaded ∷ [] in
      let starts = start_socket w3 log' in
      if not socket
      then (h.remove_file w2 service_file, log ++ removed service_file ∷ [], false)
      else if not fresh
      then (w3, log', false)
      else starts

  -- `install`.
  unfoldable pub install : InstallConfig → World → World × List Done × Bool
  install cfg w =
      let (connected, w1) = h.connect w in
      if not connected
      then (w1, [], false)
      else elim (h.executable w1) [ none ↦ (w1, [], false) | some exe ↦ install_units exe cfg w1 ]

  -- `uninstall`; a file that cannot be removed is only logged.
  unfoldable pub uninstall : World → World × List Done × Bool
  uninstall w =
      let (connected, w1) = h.connect w in
      let (socket, w2) = h.stop_unit w1 socket_unit_name in
      let (service, w3) = h.stop_unit w2 service_unit_name in
      let (off, w4) = h.disable_units w3 in
      let w5 = h.remove_file (h.remove_file w4 socket_file) service_file in
      let (fresh, w6) = h.reload w5 in
      let stops = stopped socket_unit_name ∷ stopped service_unit_name ∷ [] in
      let gone = stops ++ disabled ∷ removed socket_file ∷ removed service_file ∷ reloaded ∷ [] in
      if not connected
      then (w1, [], false)
      else if not socket
      then (w2, stopped socket_unit_name ∷ [], false)
      else if not service
      then (w3, stops, false)
      else if not off
      then (w4, stops ++ disabled ∷ [], false)
      else (w6, gone, fresh)
