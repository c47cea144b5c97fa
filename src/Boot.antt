-- ===== src/Boot.antt =====
-- main.go, manager.go, service.go, runtime_info.go, mount.go and log.go: how the shim is installed and
-- started, and its commands.
pub mod Install
pub mod Installed
pub mod Open
pub mod Commands
pub mod Deleted
