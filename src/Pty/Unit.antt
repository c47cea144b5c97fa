-- ===== src/Pty/Unit.antt =====
-- pty.go: the unit that runs the terminal handler of a process.
use containerd_shim_systemd.Prelude.{
  Bool, true, false, not, String, none, some, str_eq, if◌then◌else◌,
}
use containerd_shim_systemd.Process.{Process}
use containerd_shim_systemd.Outside.{Outside, starts, stops}
use containerd_shim_systemd.Task.{unit_name, Shim}
use containerd_shim_systemd.Teardown.{called, reset_failed_unit}

-- `ttyUnitName`.
unfoldable pub tty_unit_name : Process → String
tty_unit_name p = unit_name p.ns p.id "tty"

module _ (o : Outside) where
  open o use {World, start_transient, job_result, stop_unit}

  -- `StartTransientUnitContext`, which takes no reference to the unit.
  unfoldable pub start_tty_unit : Shim World → String → Shim World × Bool
  start_tty_unit s name =
      let (done, w) = start_transient s.world name false in (called s (starts name false) w, done)

  -- The deferred stop of a terminal that could not be made.
  unfoldable pub tty_fails : Shim World → String → Shim World × Bool
  tty_fails s name = (called s (stops name) (stop_unit s.world name).1, false)

  -- The wait for the job; a context that is done ends it, and the terminal is taken as made.
  unfoldable pub await_tty : Shim World → String → Shim World × Bool
  await_tty s name =
      let (status, w) = job_result s.world name in
      let s' = record s { world = w } in
      elim status [
        | none ↦ (s', true)
        | some text ↦ if str_eq text "done" then (s', true) else tty_fails s' name
      ]

  -- `makePty`: whether it returned nil.
  unfoldable pub make_pty : Shim World → Process → Shim World × Bool
  make_pty s p =
      let name = tty_unit_name p in
      let (s1, began) = start_tty_unit s name in
      let (s2, reset) = reset_failed_unit o s1 name in
      let (s3, again) = start_tty_unit s2 name in
      if began
      then await_tty s1 name
      else if not reset
      then tty_fails s2 name
      else if again
      then await_tty s3 name
      else tty_fails s3 name
