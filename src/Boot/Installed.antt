-- ===== src/Boot/Installed.antt =====
-- service.go: what an installation that reports success has done.
use containerd_shim_systemd.Prelude.{
  ◌≡◌, Bool, true, false, ◌&&◌, String, [], ◌∷◌, none, some, arith, str_eq,
}
use containerd_shim_systemd.Boot.Install.{
  InstallConfig, Host, wrote, started, reloaded, service_file, socket_file, socket_unit_name,
  service_unit, socket_unit, start_socket, install_units,
}

module _ (h : Host) where
  open h use {World}

  -- The installation from the file of the socket on.
  abbrev pub is_socket_up : World → InstallConfig → Bool
  is_socket_up w cfg =
      let (socket, w1) = h.write_file w socket_file (socket_unit cfg.socket) in
      let (fresh, w2) = h.reload w1 in
      let (began, w3) = h.start_unit w2 socket_unit_name in
      socket
      && (fresh
          && (began
              && elim (h.start_result w3).0 [ none ↦ false | some text ↦ str_eq text "done" ]))

  -- Whether an installation reports success does not depend on whether the file of the service could be
  -- written: it does so exactly if the file of the socket is written, systemd reloads, and the socket's
  -- start is done; it has then taken each of its steps once, in this order.
  pub install_units-socket_up :
      (exe : String) (cfg : InstallConfig) (w : World)
      → let w' = (h.write_file w service_file (service_unit exe cfg)).1 in
        let (_, done, reported) = install_units h exe cfg w in
        (reported ≡ is_socket_up w' cfg)
        × (reported ≡ true
            → done
              ≡ wrote service_file ∷ wrote socket_file ∷ reloaded ∷ started socket_unit_name ∷ [])
  unfolding install_units start_socket
  install_units-socket_up exe cfg w = (ground arith, λ ok. ground arith)
