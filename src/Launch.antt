-- ===== src/Launch.antt =====
-- create.go, start.go, process.go and pty.go: what a container is made of, and the units that systemd is
-- asked to start for it.
pub mod Options
pub mod Properties
pub mod Setup
pub mod Mounted
