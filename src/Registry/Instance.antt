-- ===== src/Registry/Instance.antt =====
-- process.go, state.go: the managers of the shim are a `processLookup` of the event reactor.
use containerd_shim_systemd.Prelude.{
  ◌≡◌, refl, ◌∙◌, sym, ap, true, none, some, arith, Option-cases, inl, inr,
}
use containerd_shim_systemd.State.{PState, has_exited}
use containerd_shim_systemd.Process.{Process, process_state}
use containerd_shim_systemd.Outside.{Outside}
use containerd_shim_systemd.Task.{Shim}
use containerd_shim_systemd.Task.Fields.{
  SameRecord, load_state_exec-SameRecord, load_state_init-SameRecord, load_exit_state_exec-recorded,
  load_exit_state_init-recorded,
}
use containerd_shim_systemd.Reactor.{ProcessLookup}
use containerd_shim_systemd.Registry.{
  Ref, Registry, Tracked, init_process, exec_process, process_of, recorded_of, paths, find, put,
  get_by_path, record_exit, state_at, pid_at, recorded_at, load_state_tracked,
  load_exit_state_tracked, load_at,
}
use containerd_shim_systemd.Registry.Lookup.{
  SameKind, find-put, recorded_in, recorded_of-at, state_of-at, record_recorded, record_state,
}
use containerd_shim_systemd.Registry.Found.{record_path}

-- The recorded exit of a process, by its two fields.
recorded-SameRecord : (p q : Process) → SameRecord p q → recorded_in q ≡ recorded_in p
unfolding recorded_in
recorded-SameRecord p q r = ground arith

has_recorded :
    (p : Process) (st : PState)
    → recorded_in p ≡ some st
    → (p.has_systemd_exit_state ≡ true) × (p.systemd_exit_state ≡ st)
unfolding recorded_in
has_recorded p st h = ground arith

module _ (o : Outside) where
  open o use {World}

  load_state-kind : (s : Shim World) (t : Tracked) → SameKind t (load_state_tracked o s t).1
  unfolding load_state_tracked
  load_state-kind s (init_process p) = tt
  load_state-kind s (exec_process a p) = tt

  load_exit-kind : (s : Shim World) (t : Tracked) → SameKind t (load_exit_state_tracked o s t).1
  unfolding load_exit_state_tracked
  load_exit-kind s (init_process p) = tt
  load_exit-kind s (exec_process a p) = tt

  load_state-SameRecord :
      (s : Shim World) (t : Tracked)
      → SameRecord (process_of t) (process_of (load_state_tracked o s t).1)
  unfolding load_state_tracked
  load_state-SameRecord s (init_process p) = load_state_init-SameRecord o s p
  load_state-SameRecord s (exec_process a p) = load_state_exec-SameRecord o s p

  load_exit-recorded :
      (s : Shim World) (t : Tracked)
      → (process_of t).has_systemd_exit_state ≡ true
      → has_exited (process_of t).systemd_exit_state ≡ true
      → let r = load_exit_state_tracked o s t in
        (r.2 ≡ true) × (has_exited (process_state (process_of r.1)) ≡ true)
  unfolding load_exit_state_tracked
  load_exit-recorded s (init_process p) h e = load_exit_state_init-recorded o s p h e
  load_exit-recorded s (exec_process a p) h e = load_exit_state_exec-recorded o s p h e

  find-shim :
      (r : Registry World) (s : Shim World) (ref : Ref)
      → find (record r { shim = s }) ref ≡ find r ref
  unfolding find
  find-shim r s (Ref.init_ref key) = refl
  find-shim r s (Ref.exec_ref key id) = refl

  pub load_state_recorded :
      (r : Registry World) (ref : Ref)
      → recorded_at (load_at o (load_state_tracked o) r ref).0 ref ≡ recorded_at r ref
  unfolding load_at recorded_at recorded_in
  load_state_recorded r ref = elim (Option-cases (find r ref)) [
    | inl e ↦ rw (e, load_at) (ap recorded_of e)
    | inr (t, e) ↦
        let (s, t', ok) = load_state_tracked o r.shim t in
        let r' = record r { shim = s } in
        let at = find-put r' ref t t' (find-shim r s ref ∙ e) (load_state-kind r.shim t) in
        rw (e, load_at)
          (recorded_of-at (find (put r' ref t') ref) (process_of t') at
            ∙ recorded-SameRecord (process_of t) (process_of t') (load_state-SameRecord r.shim t))
  ]

  pub load_exit_recorded :
      (r : Registry World) (ref : Ref) (st : PState)
      → recorded_at r ref ≡ some st
      → has_exited st ≡ true
      → let q = load_at o (load_exit_state_tracked o) r ref in
        (q.1 ≡ true) × (has_exited (state_at q.0 ref) ≡ true)
  unfolding load_at recorded_at state_at
  load_exit_recorded r ref st h x = elim (Option-cases (find r ref)) [
    | inl e ↦ let h' : none ≡ some st = rw e at h in absurd (cc)
    | inr (t, e) ↦
        let (s, t', ok) = load_exit_state_tracked o r.shim t in
        let r' = record r { shim = s } in
        let at = find-put r' ref t t' (find-shim r s ref ∙ e) (load_exit-kind r.shim t) in
        let before : recorded_in (process_of t) ≡ some st =
          sym (recorded_of-at (find r ref) (process_of t) (rw e refl)) ∙ h in
        let (has, is) = has_recorded (process_of t) st before in
        let (done, ended) = load_exit-recorded r.shim t has (ap has_exited is ∙ x) in
        rw (e, load_at)
          (done, ap has_exited (state_of-at (find (put r' ref t') ref) (process_of t') at) ∙ ended)
  ]

  -- What the reactor needs of the shim's managers and processes, and the laws that it counts on.
  abbrev pub shim_lookup : ProcessLookup
  shim_lookup = record {
    Store = Registry World;
    Ref = Ref;
    get_by_path = get_by_path;
    paths = paths;
    process_state = state_at;
    pid = pid_at;
    record_exit = record_exit;
    load_state = load_at o (load_state_tracked o);
    load_exit_state = load_at o (load_exit_state_tracked o);
    recorded = recorded_at;
    record_recorded = record_recorded;
    record_path = record_path;
    record_state = record_state;
    load_state_recorded = load_state_recorded;
    load_exit_recorded = load_exit_recorded;
  }
