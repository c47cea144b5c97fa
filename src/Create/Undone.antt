-- ===== src/Create/Undone.antt =====
-- create.go, `Service.Create`: a create that fails leaves nothing in the managers.
use containerd_shim_systemd.Prelude.{◌≡◌, ◌∙◌, true, String, List, none, some, arith, str_eq_refl}
use containerd_shim_systemd.Prelude.Assoc.{lookup, lookup-remove}
use containerd_shim_systemd.Outside.{Outside}
use containerd_shim_systemd.Task.{InitProcess, Shim}
use containerd_shim_systemd.Wait.{Wake}
use containerd_shim_systemd.Startup.{is_error}
use containerd_shim_systemd.Registry.{
  Registry, init_ref, add_process, add_unit, delete_unit, delete_process,
}
use containerd_shim_systemd.Create.{
  CreateRequest, new_init, create_init, undo_create, create_request,
}

module _ (o : Outside) where
  open o use {World}

  undo_create-untracked :
      (wakes : List Wake) (r : Registry World) (key path : String) (s : Shim World)
      (p : InitProcess)
      → let r' = (undo_create o wakes r key path s p).0 in
        (lookup key r'.processes ≡ none) × (lookup path r'.units ≡ none)
  unfolding undo_create delete_unit delete_process
  undo_create-untracked wakes r key path s p = (
    lookup-remove key key r.processes ∙ ground (arith, str_eq_refl key),
    lookup-remove path path r.units ∙ ground (arith, str_eq_refl path),
  )

  -- A `Create` of a new container that fails, at whatever step, leaves neither the container nor its
  -- unit in the managers.
  pub create_request-untracked :
      (wakes : List Wake) (r : Registry World) (key : String) (q : CreateRequest)
      (processes : List (String × InitProcess))
      → add_process r.processes key (new_init o q) ≡ some processes
      → is_error (create_request o wakes r key q).1 ≡ true
      → let r' = (create_request o wakes r key q).0 in
        (lookup key r'.processes ≡ none) × (lookup (new_init o q).process.path_name r'.units ≡ none)
  unfolding create_request
  create_request-untracked wakes r key q processes a h =
      let p = new_init o q in
      let (s, p', out) = create_init o q.checkpoint r.shim p in
      let path = p.process.path_name in
      let r' = add_unit (record r { processes = processes }) path (init_ref key) in
      let undone = undo_create-untracked wakes r' key path s p' in ground (arith, a, h, undone)
