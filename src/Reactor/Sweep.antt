-- ===== src/Reactor/Sweep.antt =====
-- unitevents.go: the resync, and what a round of the worker does to the queue.
use containerd_shim_systemd.Prelude.{
  ◌≡◌, refl, ◌∙◌, true, false, String, List, [], ◌∷◌, some, str_eq, str_eq_iff, arith, inl, inr,
  Bool-cases, Option-cases,
}
use containerd_shim_systemd.State.{has_exited}
use containerd_shim_systemd.Signals.{UnitUpdate, service_exit_state}
use containerd_shim_systemd.WorkQueue.{WorkQueue, new_unit_work_queue, add}
use containerd_shim_systemd.WorkQueue.Invariant.{mem, Reach, next, adds}
use containerd_shim_systemd.WorkQueue.Progress.{pending, add-pending, add_keeps}
use containerd_shim_systemd.Reactor.{
  ProcessLookup, add_paths, resync, reconcile_unit, reconcile_found, enqueue_if_exit,
  on_service_exit, on_unit_exit,
}

add-open : (q : WorkQueue) (name : String) → (add q name).shutdown ≡ q.shutdown
unfolding add
add-open q name = ground arith

add_paths-keeps :
    (q : WorkQueue) (ps : List String) (n : String)
    → pending q n ≡ true
    → pending (add_paths q ps) n ≡ true
unfolding add_paths
add_paths-keeps q [] n h = h
add_paths-keeps q (p ∷ ps) n h = add_paths-keeps (add q p) ps n (add_keeps q p n h)

add_paths-pending :
    (q : WorkQueue) (ps : List String) (n : String)
    → Reach new_unit_work_queue q
    → q.shutdown ≡ false
    → mem n ps ≡ true
    → pending (add_paths q ps) n ≡ true
unfolding add_paths
add_paths-pending q [] n r o h = cc
add_paths-pending q (p ∷ ps) n r o h = elim (Bool-cases (str_eq n p)) [
  | inl same ↦
      let e = (str_eq_iff n p).0 same in add_paths-keeps (add q p) ps n (rw e (add-pending q p r o))
  | inr other ↦
      add_paths-pending (add q p) ps n (next r (adds p refl)) (add-open q p ∙ o) (ground arith)
]

module _ (l : ProcessLookup) where
  open l use {Store, Ref, get_by_path, paths, process_state, pid, load_state, load_exit_state}

  -- After a resync, while the queue is open, every tracked unit is left to be reconciled.
  pub resync-pending :
      (s : Store) (q : WorkQueue) (path : String)
      → Reach new_unit_work_queue q
      → q.shutdown ≡ false
      → mem path (paths s) ≡ true
      → pending (resync l s q) path ≡ true
  unfolding resync
  resync-pending s q path r o h = add_paths-pending q (paths s) path r o h

  -- A unit that is not tracked, or whose process has exited, is left alone: signals and reconciles
  -- of it change neither the store nor the queue, and the reconcile succeeds.
  pub handled-unchanged :
      (s : Store) (q : WorkQueue) (u : UnitUpdate)
      → ((r : Ref) → get_by_path s u.path_base ≡ some r → has_exited (process_state s r) ≡ true)
      → (enqueue_if_exit l s q u ≡ (s, q)) × (reconcile_unit l s u.path_base ≡ (s, true))
  unfolding enqueue_if_exit on_service_exit on_unit_exit reconcile_unit reconcile_found
  handled-unchanged s q u h = elim (Option-cases (get_by_path s u.path_base)) [
    | inl e ↦ elim (Option-cases (service_exit_state u.changed)) [
      | inl d ↦ (ground (arith, e, d), rw (e, reconcile_unit) refl)
      | inr (st, d) ↦ (ground (arith, e, d), rw (e, reconcile_unit) refl)
    ]
    | inr (r, e) ↦
        let x = h r e in
        elim (Option-cases (service_exit_state u.changed)) [
          | inl d ↦ (ground (arith, e, d, x), ground (arith, e, x))
          | inr (st, d) ↦ (ground (arith, e, d, x), ground (arith, e, x))
        ]
  ]
