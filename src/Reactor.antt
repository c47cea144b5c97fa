-- ===== src/Reactor.antt =====
-- unitevents.go: the event reactor. It knows the processes only by the interface `processLookup` and
-- by the methods of `Process` that it calls; a store holds the processes, and a reference is what
-- `GetByPath` returns. The goroutines meet in the store and in the work queue.
pub mod Signal
pub mod Sweep
pub mod Loop
pub mod Redialed
use containerd_shim_systemd.Prelude.{
  ℕ, ◌<◌, ◌≡◌, Bool, true, false, ◌&&◌, not, String, List, [], ◌∷◌, Option, none, some, str_eq, ltb,
  if◌then◌else◌,
}
use containerd_shim_systemd.State.{PState, has_exited}
use containerd_shim_systemd.Signals.{
  UnitUpdate, unit_interface, service_interface, service_exit_state, unit_event_is_exit,
}
use containerd_shim_systemd.WorkQueue.{WorkQueue, add, retry, forget, done}
use containerd_shim_systemd.WorkQueue.Backoff.{
  reconcile_max_retries, reconcile_retry_base, reconcile_retry_max,
}

-- `processLookup`, with the methods of `Process`. A load returns whether it worked. The laws are what
-- the reactor counts on: an exit that is recorded stays at hand until `LoadExitState` takes it in.
pub record ProcessLookup : Type 1 where
  pub Store : Type 0
  pub Ref : Type 0
  pub get_by_path : Store → String → Option Ref
  pub paths : Store → List String
  pub process_state : Store → Ref → PState
  pub pid : Store → Ref → ℕ
  pub record_exit : Store → Ref → PState → Store
  pub load_state : Store → Ref → Store × Bool
  pub load_exit_state : Store → Ref → Store × Bool
  -- The exit that `RecordSystemdExitState` keeps.
  pub recorded : Store → Ref → Option PState
  pub record_recorded :
      (s : Store) (path : String) (r : Ref) (st : PState)
      → get_by_path s path ≡ some r
      → has_exited st ≡ true
      → ((old : PState) → recorded s r ≡ some old → has_exited old ≡ true)
      → (kept : PState) × (recorded (record_exit s r st) r ≡ some kept) × (has_exited kept ≡ true)
  pub record_path :
      (s : Store) (r : Ref) (st : PState) (path : String)
      → get_by_path (record_exit s r st) path ≡ get_by_path s path
  pub record_state :
      (s : Store) (r : Ref) (st : PState) → process_state (record_exit s r st) r ≡ process_state s r
  pub load_state_recorded : (s : Store) (r : Ref) → recorded (load_state s r).0 r ≡ recorded s r
  pub load_exit_recorded :
      (s : Store) (r : Ref) (st : PState)
      → recorded s r ≡ some st
      → has_exited st ≡ true
      → ((load_exit_state s r).1 ≡ true)
        × (has_exited (process_state (load_exit_state s r).0 r) ≡ true)

-- The loop of `resync`.
unfoldable pub add_paths : WorkQueue → List String → WorkQueue
add_paths q [] = q
add_paths q (path ∷ rest) = add_paths (add q path) rest

module _ (l : ProcessLookup) where
  open l use {
    Store, Ref, get_by_path, paths, process_state, pid, record_exit, load_state, load_exit_state,
  }

  -- A service update that tells of an exit, for a process that is tracked and not known to have
  -- exited: it is recorded, then the unit is enqueued.
  on_service_exit : Store → WorkQueue → String → PState → Store × WorkQueue
  on_service_exit s q path st = elim (get_by_path s path) [
    | none ↦ (s, q)
    | some r ↦ if has_exited (process_state s r) then (s, q) else (record_exit s r st, add q path)
  ]

  on_unit_exit : Store → WorkQueue → String → Store × WorkQueue
  on_unit_exit s q path = elim (get_by_path s path) [
    | none ↦ (s, q)
    | some r ↦ if has_exited (process_state s r) then (s, q) else (s, add q path)
  ]

  -- `enqueueIfExit`.
  unfoldable pub enqueue_if_exit : Store → WorkQueue → UnitUpdate → Store × WorkQueue
  unfolding on_service_exit on_unit_exit
  enqueue_if_exit s q u =
      let from_unit = on_unit_exit s q u.path_base in
      if str_eq u.interface_name service_interface
      then elim (service_exit_state u.changed) [
        | none ↦ (s, q)
        | some st ↦ on_service_exit s q u.path_base st
      ]
      else if str_eq u.interface_name unit_interface
      then if unit_event_is_exit u.changed then from_unit else (s, q)
      else (s, q)

  -- `consume`: the updates of one connection.
  unfoldable pub consume : Store → WorkQueue → List UnitUpdate → Store × WorkQueue
  unfolding enqueue_if_exit
  consume s q [] = (s, q)
  consume s q (u ∷ us) = let (s', q') = enqueue_if_exit s q u in consume s' q' us

  -- `resync`.
  unfoldable pub resync : Store → WorkQueue → WorkQueue
  unfolding add_paths
  resync s q = add_paths q (paths s)

  -- `reconcileUnit` for a process that is found: whether it returned nil.
  reconcile_found : Store → Ref → Store × Bool
  reconcile_found s r =
      let (s', ok) = load_state s r in
      let exit = load_exit_state s' r in
      if has_exited (process_state s r)
      then (s, true)
      else if not ok
      then (s', false)
      else if not (has_exited (process_state s' r)) && ltb 0 (pid s' r)
      then exit
      else (s', true)

  unfoldable pub reconcile_unit : Store → String → Store × Bool
  unfolding reconcile_found
  reconcile_unit s path = elim (get_by_path s path) [
    | none ↦ (s, true)
    | some r ↦ reconcile_found s r
  ]

  -- What `reconcileWorker` does with a unit once it is reconciled.
  settle : WorkQueue → String → Bool → WorkQueue
  settle q path ok =
      let (q', again) =
        retry q path reconcile_max_retries reconcile_retry_base reconcile_retry_max in
      if ok then forget q path else if again then q' else forget q' path

  -- The rest of a round of `reconcileWorker`, after `Get` has handed out `path`.
  unfoldable pub reconcile_round : Store → WorkQueue → String → Store × WorkQueue
  unfolding reconcile_unit settle
  reconcile_round s q path =
      let (s', ok) = reconcile_unit s path in (s', settle (done q path) path ok)
