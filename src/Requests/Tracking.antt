-- ===== src/Requests/Tracking.antt =====
-- delete.go and create.go: what a request leaves in the managers.
use containerd_shim_systemd.Prelude.{
  ◌≡◌, refl, ◌∙◌, Bool, true, false, ◌||◌, String, List, [], ◌∷◌, ◌++◌, none, some, arith, str_eq,
  str_eq_refl, if◌then◌else◌,
}
use containerd_shim_systemd.Prelude.Assoc.{lookup, lookup-insert, lookup-remove}
use containerd_shim_systemd.State.{PState}
use containerd_shim_systemd.Process.{mark_deleting}
use containerd_shim_systemd.Outside.{Outside}
use containerd_shim_systemd.Task.{ExecProcess, InitProcess, exec_name}
use containerd_shim_systemd.Wait.{Wake}
use containerd_shim_systemd.Teardown.{ok, delete_init, release_unit, reset_failed_unit}
use containerd_shim_systemd.Registry.{Registry, delete_unit, delete_process}
use containerd_shim_systemd.Startup.{is_ok}
use containerd_shim_systemd.Requests.{sweep_execs, delete_init_request, finish_exec}

-- Some exec of the list has this unit.
abbrev pub any_path : String → List (String × ExecProcess) → Bool
any_path path [] = false
any_path path ((k, e) ∷ es) = str_eq e.process.path_name path || any_path path es

module _ (o : Outside) where
  open o use {World}

  sweep-units :
      (r : Registry World) (es : List (String × ExecProcess)) (path : String)
      → lookup path (sweep_execs o r es).units
        ≡ (if any_path path es then none else lookup path r.units)
  unfolding sweep_execs delete_unit
  sweep-units r [] path = refl
  sweep-units r ((k, e) ∷ es) path =
      let s = (reset_failed_unit o (release_unit o r.shim (exec_name e)) (exec_name e)).0 in
      let marked = record e { process = mark_deleting e.process } in
      let left = record r { shim = s; dropped = r.dropped ++ marked ∷ [] } in
      let r' = delete_unit left e.process.path_name in
      let rest = sweep-units r' es path in
      let here = lookup-remove e.process.path_name path r.units in ground (arith, rest, here)

  -- After a `Delete` of a container has succeeded the container is not there any more, and neither
  -- its unit nor one of an exec that it had is tracked.
  pub delete_init_request-untracked :
      (wakes : List Wake) (r : Registry World) (key : String) (p : InitProcess) (st : PState)
      (path : String)
      → (delete_init o wakes r.shim p).2 ≡ ok st
      → (str_eq p.process.path_name path || any_path path (delete_init o wakes r.shim p).1.execs)
        ≡ true
      → let r' = (delete_init_request o wakes r key p).0 in
        (lookup key r'.processes ≡ none) × (lookup path r'.units ≡ none)
  unfolding delete_init_request delete_unit delete_process
  delete_init_request-untracked wakes r key p st path e h =
      let (s, p', out) = delete_init o wakes r.shim p in
      let swept = sweep_execs o (record r { shim = s }) p'.execs in
      rw (e, delete_init_request)
        (
          lookup-remove key key swept.processes ∙ ground (arith, str_eq_refl key),
          lookup-remove p.process.path_name path swept.units
              ∙ ground (arith, sweep-units (record r { shim = s }) p'.execs path, h),
        )

  -- An exec whose registration is undone, because its container is being deleted or because its
  -- files cannot be written, is in no manager any more; the container is there without it.
  pub finish_exec-undone :
      (r : Registry World) (key : String) (parent : InitProcess) (e : ExecProcess)
      → is_ok (finish_exec o r key parent e).1 ≡ false
      → let r' = (finish_exec o r key parent e).0 in
        let without = record parent { execs = delete_process parent.execs e.exec_id } in
        (lookup key r'.processes ≡ some without)
        × (lookup e.exec_id without.execs ≡ none)
        × (lookup e.process.path_name r'.units ≡ none)
  unfolding finish_exec delete_unit delete_process
  finish_exec-undone r key parent e h =
      let without = record parent { execs = delete_process parent.execs e.exec_id } in
      let path = e.process.path_name in
      (
        ground (arith, h, lookup-insert key key without r.processes, str_eq_refl key),
        lookup-remove e.exec_id e.exec_id parent.execs ∙ ground (arith, str_eq_refl e.exec_id),
        ground (arith, h, lookup-remove path path r.units, str_eq_refl path),
      )
