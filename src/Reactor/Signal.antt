-- ===== src/Reactor/Signal.antt =====
-- unitevents.go: the exit that a signal tells of reaches the process.
use containerd_shim_systemd.Prelude.{
  ◌<◌, ◌≡◌, refl, ◌∙◌, true, false, String, some, str_eq_refl, arith,
}
use containerd_shim_systemd.State.{PState, has_exited}
use containerd_shim_systemd.Signals.{UnitUpdate, service_interface, service_exit_state}
use containerd_shim_systemd.Signals.Exit.{service_exit_state-exited}
use containerd_shim_systemd.WorkQueue.{WorkQueue, new_unit_work_queue, add}
use containerd_shim_systemd.WorkQueue.Invariant.{Reach}
use containerd_shim_systemd.WorkQueue.Progress.{pending, add-pending}
use containerd_shim_systemd.Reactor.{
  ProcessLookup, enqueue_if_exit, on_service_exit, reconcile_unit, reconcile_found,
}

module _ (l : ProcessLookup) where
  open l use {
    Store, Ref, get_by_path, process_state, pid, record_exit, load_state, load_exit_state, recorded,
    record_recorded, record_path, record_state, load_state_recorded, load_exit_recorded,
  }

  enqueue_service :
      (s : Store) (q : WorkQueue) (u : UnitUpdate) (st : PState) (r : Ref)
      → u.interface_name ≡ service_interface
      → service_exit_state u.changed ≡ some st
      → get_by_path s u.path_base ≡ some r
      → has_exited (process_state s r) ≡ false
      → enqueue_if_exit l s q u ≡ (record_exit s r st, add q u.path_base)
  unfolding enqueue_if_exit on_service_exit
  enqueue_service s q u st r i d g n =
      rw (i, str_eq_refl service_interface, d, g, n, enqueue_if_exit, on_service_exit) refl

  reconcile_recorded :
      (s : Store) (path : String) (r : Ref) (st : PState)
      → get_by_path s path ≡ some r
      → recorded s r ≡ some st
      → has_exited st ≡ true
      → (load_state s r).1 ≡ true
      → 0 < pid (load_state s r).0 r
      → let t = reconcile_unit l s path in (t.1 ≡ true) × (has_exited (process_state t.0 r) ≡ true)
  unfolding reconcile_unit reconcile_found
  reconcile_recorded s path r st g k e ok p =
      let s' = (load_state s r).0 in
      let taken = load_exit_recorded s' r st (load_state_recorded s r ∙ k) e in
      ground (arith, g, ok, p, taken)

  -- A signal that tells of the exit of a tracked process, not known to have exited, leaves its unit
  -- to be reconciled, while the queue is open.
  pub signalled-pending :
      (s : Store) (q : WorkQueue) (u : UnitUpdate) (st : PState) (r : Ref)
      → u.interface_name ≡ service_interface
      → service_exit_state u.changed ≡ some st
      → get_by_path s u.path_base ≡ some r
      → has_exited (process_state s r) ≡ false
      → Reach new_unit_work_queue q
      → q.shutdown ≡ false
      → pending (enqueue_if_exit l s q u).1 u.path_base ≡ true
  signalled-pending s q u st r i d g n reach open_ =
      rw (enqueue_service s q u st r i d g n) (add-pending q u.path_base reach open_)

  -- The reconcile that follows a signal of the exit of a tracked process, not known to have exited,
  -- succeeds and ends with the process exited, if the process's state can be loaded, gives a process
  -- id, and nothing but exits had been recorded for it.
  pub signalled-exited :
      (s : Store) (q : WorkQueue) (u : UnitUpdate) (st : PState) (r : Ref)
      → u.interface_name ≡ service_interface
      → service_exit_state u.changed ≡ some st
      → get_by_path s u.path_base ≡ some r
      → has_exited (process_state s r) ≡ false
      → ((old : PState) → recorded s r ≡ some old → has_exited old ≡ true)
      → (load_state (record_exit s r st) r).1 ≡ true
      → 0 < pid (load_state (record_exit s r st) r).0 r
      → let (s'', ok) = reconcile_unit l (enqueue_if_exit l s q u).0 u.path_base in
        (ok ≡ true) × (has_exited (process_state s'' r) ≡ true)
  signalled-exited s q u st r i d g n olds ok p =
      let e = enqueue_service s q u st r i d g n in
      let ended = (service_exit_state-exited u.changed st d).0 in
      let (kept, k, ke) = record_recorded s u.path_base r st g ended olds in
      let found = record_path s r st u.path_base ∙ g in
      rw e (reconcile_recorded (record_exit s r st) u.path_base r kept found k ke ok p)
