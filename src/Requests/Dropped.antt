-- ===== src/Requests/Dropped.antt =====
-- delete.go: what `Service.Delete` of a container does with the execs that it leaves.
use mathlib.Core.List.{append_assoc, append-nil}
use containerd_shim_systemd.Prelude.{
  ◌≡◌, sym, ap, ◌∙◌, Bool, true, false, String, List, [], ◌∷◌, ◌++◌, arith,
}
use containerd_shim_systemd.State.{PState}
use containerd_shim_systemd.Process.{mark_deleting}
use containerd_shim_systemd.Outside.{Outside, Call, unrefs, resets}
use containerd_shim_systemd.Task.{ExecProcess, InitProcess, Shim, exec_name}
use containerd_shim_systemd.Wait.{Wake}
use containerd_shim_systemd.Teardown.{ok, delete_init, release_unit, reset_failed_unit}
use containerd_shim_systemd.Startup.Raced.{
  Reference, held, is_held, held_by, held_after, held_after-append, release-held,
}
use containerd_shim_systemd.Registry.{Registry, delete_unit}
use containerd_shim_systemd.Requests.{sweep_execs, delete_init_request}

-- The execs as they are once they are marked for deletion.
abbrev pub marked : List (String × ExecProcess) → List ExecProcess
marked [] = []
marked ((k, e) ∷ es) = record e { process = record e.process { deleting = true } } ∷ marked es

-- No exec's unit is held by the shim, but where its release was asked for and failed.
abbrev pub AllGivenUp : List (String × ExecProcess) → List Call → Type 0
AllGivenUp [] cs = Unit
AllGivenUp ((k, e) ∷ es) cs =
    (is_held (held_after (exec_name e) held cs) ≡ false) × AllGivenUp es cs

unrefs-held :
    (n m : String) (x : Reference) (released : Bool)
    → is_held x ≡ false
    → is_held (held_by n x (unrefs m released)) ≡ false
unrefs-held n m x released h = ground arith

module _ (o : Outside) where
  open o use {World, pinned, unref_unit, reset_failed}

  -- The clean-up of one exec.
  abbrev given_back : Shim World → ExecProcess → Shim World
  given_back s e = (reset_failed_unit o (release_unit o s (exec_name e)) (exec_name e)).0

  given_back-free :
      (s : Shim World) (e : ExecProcess)
      → pinned ≡ true
      → is_held (held_after (exec_name e) held (given_back s e).calls) ≡ false
  unfolding reset_failed_unit
  given_back-free s e h =
      let n = exec_name e in
      ap is_held (held_after-append n held (release_unit o s n).calls (resets n))
      ∙ release-held o s n held h

  given_back-keeps :
      (s : Shim World) (e : ExecProcess) (n : String)
      → pinned ≡ true
      → is_held (held_after n held s.calls) ≡ false
      → is_held (held_after n held (given_back s e).calls) ≡ false
  unfolding release_unit reset_failed_unit
  given_back-keeps s e n h free =
      let m = exec_name e in
      let released = (unref_unit s.world m).0 in
      let before = held_after-append n held s.calls (unrefs m released) in
      let after = held_after-append n held (s.calls ++ unrefs m released ∷ []) (resets m) in
      rw (h, release_unit)
        (ap is_held (after ∙ before) ∙ unrefs-held n m (held_after n held s.calls) released free)

  -- The registry after the clean-up of one exec.
  abbrev swept : Registry World → ExecProcess → Registry World
  swept r e =
      let gone = record e { process = mark_deleting e.process } in
      let left = record r { shim = given_back r.shim e; dropped = r.dropped ++ gone ∷ [] } in
      delete_unit left e.process.path_name

  sweep-keeps :
      (r : Registry World) (es : List (String × ExecProcess)) (n : String)
      → pinned ≡ true
      → is_held (held_after n held r.shim.calls) ≡ false
      → is_held (held_after n held (sweep_execs o r es).shim.calls) ≡ false
  unfolding sweep_execs delete_unit
  sweep-keeps r [] n h free = free
  sweep-keeps r ((k, e) ∷ es) n h free =
      sweep-keeps (swept r e) es n h (given_back-keeps r.shim e n h free)

  sweep-AllGivenUp :
      (r : Registry World) (es : List (String × ExecProcess))
      → pinned ≡ true
      → AllGivenUp es (sweep_execs o r es).shim.calls
  unfolding sweep_execs delete_unit
  sweep-AllGivenUp r [] h = tt
  sweep-AllGivenUp r ((k, e) ∷ es) h = (
    sweep-keeps (swept r e) es (exec_name e) h (given_back-free r.shim e h),
    sweep-AllGivenUp (swept r e) es h,
  )

  sweep-dropped :
      (r : Registry World) (es : List (String × ExecProcess))
      → (sweep_execs o r es).dropped ≡ r.dropped ++ marked es
  unfolding sweep_execs delete_unit mark_deleting
  sweep-dropped r [] = sym (append-nil r.dropped)
  sweep-dropped r ((k, e) ∷ es) =
      let gone = record e { process = mark_deleting e.process } in
      sweep-dropped (swept r e) es ∙ append_assoc r.dropped (gone ∷ []) (marked es)

  -- With a message bus, when a `Delete` of a container has succeeded, each exec that the container
  -- still had is marked for deletion, and the shim holds no reference to the unit of any of them but one
  -- whose release was asked for and failed, whatever it held before.
  pub delete_init_request-dropped :
      (wakes : List Wake) (r : Registry World) (key : String) (p : InitProcess) (st : PState)
      → pinned ≡ true
      → (delete_init o wakes r.shim p).2 ≡ ok st
      → let execs = (delete_init o wakes r.shim p).1.execs in
        let r' = (delete_init_request o wakes r key p).0 in
        (r'.dropped ≡ r.dropped ++ marked execs) × AllGivenUp execs r'.shim.calls
  unfolding delete_init_request delete_unit
  delete_init_request-dropped wakes r key p st h e =
      let (s, p', out) = delete_init o wakes r.shim p in
      let left = record r { shim = s } in
      rw (e, delete_init_request) (sweep-dropped left p'.execs, sweep-AllGivenUp left p'.execs h)
