-- ===== src/Create.antt =====
-- create.go: `Service.Create`, and the helper that runs runc in a unit and writes the state that
-- `LoadState` reads.
pub mod Undone
pub mod Helper
pub mod Handoff
pub mod Ended
use containerd_shim_systemd.Prelude.{
  ℕ, Bool, true, false, ◌&&◌, not, String, List, [], ◌∷◌, Option, none, some, str_eq, if◌then◌else◌,
}
use containerd_shim_systemd.Prelude.Assoc.{insert}
use containerd_shim_systemd.State.{PState}
use containerd_shim_systemd.State.Time.{zero_time}
use containerd_shim_systemd.Outbox.{task_create}
use containerd_shim_systemd.Process.{Process, new_process}
use containerd_shim_systemd.Outside.{Outside}
use containerd_shim_systemd.Task.{InitProcess, unit_name, Shim, publish, set_state_init}
use containerd_shim_systemd.Wait.{Wake}
use containerd_shim_systemd.Pty.Unit.{tty_unit_name, make_pty}
use containerd_shim_systemd.Teardown.{
  Outcome, ok, failed_precondition, failed, blocked, delete_in_runc, delete_init, kill,
}
use containerd_shim_systemd.Startup.{is_ok, is_error}
use containerd_shim_systemd.Startup.Container.{failed_state, start_unit}
use containerd_shim_systemd.Registry.{
  Registry, init_ref, add_process, add_unit, delete_unit, delete_process,
}

-- A namespace of the container's spec: whether it is a pid namespace, and its path.
pub record SpecNamespace : Type 0 where
  pub is_pid : Bool
  pub path : String

-- The loop of `shouldKillAllOnExit`.
abbrev pub has_own_pid : List SpecNamespace → Bool
has_own_pid [] = false
has_own_pid (n ∷ ns) = if n.is_pid && str_eq n.path "" then true else has_own_pid ns

-- `shouldKillAllOnExit`; `none` is a spec with no part for Linux.
unfoldable pub should_kill_all_on_exit : Option (List SpecNamespace) → Bool
should_kill_all_on_exit none = true
should_kill_all_on_exit (some ns) = not (has_own_pid ns)

-- What `Service.Create` takes from the request, as far as it is modelled.
pub record CreateRequest : Type 0 where
  pub ns : String
  pub id : String
  pub bundle : String
  pub stdin : String
  pub stdout : String
  pub stderr : String
  pub terminal : Bool
  pub checkpoint : String
  pub namespaces : Option (List SpecNamespace)

abbrev pub created_state : ℕ → PState
created_state pid = record { exited_at = zero_time; exit_code = 0; pid = pid; status = "created" }

abbrev pub is_blocked : {A : Type 0} → Outcome A → Bool
is_blocked blocked = true
is_blocked _ = false

module _ (o : Outside) where
  open o use {World, now, path_bus_escape, write_mounts, create_restore}

  -- The container that is registered.
  unfoldable pub new_init : CreateRequest → InitProcess
  new_init q = record {
    process = new_process q.ns q.id (path_bus_escape (unit_name q.ns q.id "init")) q.terminal;
    bundle = q.bundle;
    checkpoint = q.checkpoint;
    kill_all_on_exit = should_kill_all_on_exit q.namespaces;
    execs = [];
  }

  -- `initProcess.Create` for a container that is not restored, with its terminal.
  unfoldable pub create_unit : Shim World → InitProcess → Shim World × InitProcess × Outcome ℕ
  create_unit s p =
      let tty = tty_unit_name p.process in
      let (made_tty, made) = make_pty o s p.process in
      let (s', p', out) = start_unit o made_tty p in
      let plain = start_unit o s p in
      if not p.process.terminal
      then plain
      else if not made
      then (made_tty, p, failed)
      else (if is_error out then kill o s' tty else s', p', out)

  -- The deferred clean-up of `initProcess.Create`: a container that could not be created has exited.
  unfoldable pub create_fails : Shim World → InitProcess → Shim World × InitProcess
  create_fails s p =
      let s' = (delete_in_runc o s p.process.id).0 in
      let (s'', p', st) = set_state_init o s' p (failed_state 0 (now s'.world)) in (s'', p')

  -- `initProcess.Create` for a checkpoint.
  unfoldable pub prepare_restore : Shim World → InitProcess → Shim World × InitProcess × Outcome ℕ
  prepare_restore s p =
      let (prepared, w) = create_restore s.world p.bundle in
      let s' = record s { world = w } in
      let (s1, p1) = create_fails s' p in
      elim prepared [
        | none ↦ (s1, p1, failed)
        | some terminal ↦
            (s', record p { process = record (p.process) { terminal = terminal } }, ok 0)
      ]

  -- `initProcess.Create`; a restore starts its unit later and has no process id yet.
  unfoldable pub create_init :
      String → Shim World → InitProcess → Shim World × InitProcess × Outcome ℕ
  create_init checkpoint s p =
      let (written, w) = write_mounts s.world p.bundle in
      let s' = record s { world = w } in
      let (s1, p1) = create_fails s' p in
      let (s2, p2, out) = create_unit s' p in
      let (s3, p3) = create_fails s2 p2 in
      if not written
      then (s1, p1, failed)
      else if not (str_eq checkpoint "")
      then prepare_restore s' p
      else if is_error out
      then (s3, p3, failed)
      else (s2, p2, out)

  -- The end of a `Service.Create` that has worked.
  unfoldable pub create_succeeds :
      Registry World → String → CreateRequest → Shim World → InitProcess → ℕ → Registry World
  create_succeeds r key q s p pid =
      let (s', p', st) = set_state_init o s p (created_state pid) in
      let created =
        task_create q.id q.bundle q.stdin q.stdout q.stderr q.terminal q.checkpoint pid in
      let (s'', process) = publish o s' p'.process created in
      record r { shim = s''; processes = insert key (record p' { process = process }) r.processes }

  -- The deferred clean-up of `Service.Create`: the container is dropped, then deleted. Returns also
  -- whether the delete waits.
  unfoldable pub undo_create :
      List Wake
      → Registry World
      → String
      → String
      → Shim World
      → InitProcess
      → Registry World × Bool
  undo_create wakes r key path s p =
      let (s', p', st) = set_state_init o s p (failed_state 0 (now s.world)) in
      let dropped = record r { processes = delete_process r.processes key } in
      let (s'', p'', out) = delete_init o wakes s' p' in
      (record (delete_unit dropped path) { shim = s'' }, is_blocked out)

  -- `Service.Create` from where the container is built.
  unfoldable pub create_request :
      List Wake → Registry World → String → CreateRequest → Registry World × Outcome ℕ
  create_request wakes r key q =
      let p = new_init q in
      let (s, p', out) = create_init q.checkpoint r.shim p in
      elim (add_process r.processes key p) [
        | none ↦ (r, failed)
        | some processes ↦
            let r' =
              add_unit (record r { processes = processes }) p.process.path_name (init_ref key) in
            elim out [
              | ok pid ↦ (create_succeeds r' key q s p' pid, ok pid)
              | blocked ↦ (record r' { shim = s }, blocked)
              | _ ↦
                  let (r'', waits) = undo_create wakes r' key p.process.path_name s p' in
                  (r'', if waits then blocked else failed)
            ]
      ]
