-- ===== src/Boot/Deleted.antt =====
-- main.go: what the delete command does for the container whose bundle it removes.
use Prim.Native.String.{◌++◌ as text_append}
use containerd_shim_systemd.Prelude.{String}
use containerd_shim_systemd.Outside.{Outside}
use containerd_shim_systemd.Boot.Commands.{Commands}
