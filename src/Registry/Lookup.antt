-- ===== src/Registry/Lookup.antt =====
-- process.go: the managers of the shim are what the event reactor needs of `processLookup`.
use containerd_shim_systemd.Prelude.{
  ◌≡◌, refl, ◌∙◌, ap, subst, true, ◌||◌, not, String, Option, none, some, arith, Bool-cases,
  Option-cases, inl, inr, if◌then◌else◌, str_eq_refl,
}
use containerd_shim_systemd.Prelude.Assoc.{lookup, insert, lookup-insert}
use containerd_shim_systemd.State.{PState, has_exited}
use containerd_shim_systemd.State.Time.{after}
use containerd_shim_systemd.Process.{Process, process_state, record_systemd_exit_state}
use containerd_shim_systemd.Task.{ExecProcess, InitProcess}
use containerd_shim_systemd.Registry.{
  Ref, init_ref, exec_ref, Registry, Tracked, init_process, exec_process, process_of, as_init,
  as_exec, exec_of, record_tracked, recorded_of, find, put, get_by_path, record_exit, state_at,
  recorded_at, or_zero_state, existing,
}

-- The two are processes of one kind.
abbrev pub SameKind : Tracked → Tracked → Type 0
SameKind (init_process p) (init_process q) = Unit
SameKind (exec_process a p) (exec_process b q) = Unit
SameKind _ _ = ⊥

abbrev pub process_at : Option Tracked → Option Process
process_at none = none
process_at (some t) = some (process_of t)

pub as_init-kind :
    (x : Option InitProcess) {a : InitProcess} {p : ExecProcess}
    → as_init x ≡ some (exec_process a p)
    → ⊥
as_init-kind none h = cc
as_init-kind (some q) h = cc

as_exec-kind :
    (parent : InitProcess) (x : Option ExecProcess) {p : InitProcess}
    → as_exec parent x ≡ some (init_process p)
    → ⊥
as_exec-kind parent none h = cc
as_exec-kind parent (some q) h = cc

pub exec_of-kind :
    (id : String) (x : Option InitProcess) {p : InitProcess}
    → exec_of id x ≡ some (init_process p)
    → ⊥
exec_of-kind id none h = cc
exec_of-kind id (some q) h = as_exec-kind q (lookup id q.execs) h

-- What the reactor sees of a process.
unfoldable pub recorded_in : Process → Option PState
recorded_in p = if p.has_systemd_exit_state then some (p.systemd_exit_state) else none

pub recorded_of-at :
    (x : Option Tracked) (p : Process) → process_at x ≡ some p → recorded_of x ≡ recorded_in p
unfolding recorded_in
recorded_of-at none p h = cc
recorded_of-at (some t) p h = let e : process_of t ≡ p = cc in ap recorded_in e

pub state_of-at :
    (x : Option Tracked) (p : Process) → process_at x ≡ some p → or_zero_state x ≡ process_state p
state_of-at none p h = cc
state_of-at (some t) p h = let e : process_of t ≡ p = cc in ap process_state e

record_tracked-kind : (st : PState) (t : Tracked) → SameKind t (record_tracked st t)
unfolding record_tracked
record_tracked-kind st (init_process p) = tt
record_tracked-kind st (exec_process a p) = tt

record_tracked-process :
    (st : PState) (t : Tracked)
    → process_of (record_tracked st t) ≡ record_systemd_exit_state (process_of t) st
unfolding record_tracked
record_tracked-process st (init_process p) = refl
record_tracked-process st (exec_process a p) = refl

recorded_kept :
    (p : Process) (st : PState)
    → has_exited st ≡ true
    → ((old : PState) → recorded_in p ≡ some old → has_exited old ≡ true)
    → (kept : PState) × (recorded_in (record_systemd_exit_state p st) ≡ some kept)
      × (has_exited kept ≡ true)
unfolding recorded_in record_systemd_exit_state
recorded_kept p st e olds =
    elim (Bool-cases
      (not p.has_systemd_exit_state || after st.exited_at p.systemd_exit_state.exited_at)) [
        | inl new ↦ (st, ground (arith, new), e)
        | inr old ↦ (
          p.systemd_exit_state,
          ground (arith, old),
          olds p.systemd_exit_state (ground (arith, old)),
        )
      ]

process_state-record :
    (p : Process) (st : PState) → process_state (record_systemd_exit_state p st) ≡ process_state p
unfolding record_systemd_exit_state process_state
process_state-record p st = ground arith

module _ {W : Type 0} where
  -- A process that is written through a pointer is read back through it.
  pub find-put :
      (r : Registry W) (ref : Ref) (t t' : Tracked)
      → find r ref ≡ some t
      → SameKind t t'
      → process_at (find (put r ref t') ref) ≡ some (process_of t')
  unfolding find put
  find-put r (init_ref key) (init_process p) (init_process q) h k =
      rw (lookup-insert key key q r.processes, str_eq_refl key) refl
  find-put r (init_ref key) (init_process p) (exec_process b q) h k = absurd k
  find-put r (init_ref key) (exec_process a p) t' h k =
      absurd (as_init-kind (lookup key r.processes) h)
  find-put r (exec_ref key id) (exec_process a p) (exec_process b q) h k =
      rw
        (
          lookup-insert key key (record b { execs = insert id q b.execs }) r.processes,
          str_eq_refl key,
          lookup-insert id id q b.execs,
          str_eq_refl id,
        )
        refl
  find-put r (exec_ref key id) (exec_process a p) (init_process q) h k = absurd k
  find-put r (exec_ref key id) (init_process p) t' h k =
      absurd (exec_of-kind id (lookup key r.processes) h)

  pub record_exit-find :
      (r : Registry W) (ref : Ref) (st : PState) (t : Tracked)
      → find r ref ≡ some t
      → process_at (find (record_exit r ref st) ref)
        ≡ some (record_systemd_exit_state (process_of t) st)
  unfolding record_exit
  record_exit-find r ref st t h =
      rw (h, record_exit)
        (find-put r ref t (record_tracked st t) h (record_tracked-kind st t)
          ∙ ap some (record_tracked-process st t))

  pub found_by_path :
      (r : Registry W) (path : String) (ref : Ref)
      → get_by_path r path ≡ some ref
      → (t : Tracked) × (find r ref ≡ some t)
  unfolding get_by_path
  found_by_path r path ref h = elim (Option-cases (lookup path r.units)) [
    | inl e ↦ let h' : none ≡ some ref = rw (e, get_by_path) at h in cc
    | inr (ref', e) ↦ elim (Option-cases (find r ref')) [
      | inl f ↦ let h' : none ≡ some ref = rw (e, f, existing, get_by_path) at h in cc
      | inr (t, f) ↦
          let h' : some ref' ≡ some ref = rw (e, f, existing, get_by_path) at h in
          let same : ref' ≡ ref = cc in (t, subst (λ x. find r x ≡ some t) same f)
    ]
  ]

  pub record_recorded :
      (r : Registry W) (path : String) (ref : Ref) (st : PState)
      → get_by_path r path ≡ some ref
      → has_exited st ≡ true
      → ((old : PState) → recorded_at r ref ≡ some old → has_exited old ≡ true)
      → (kept : PState) × (recorded_at (record_exit r ref st) ref ≡ some kept)
        × (has_exited kept ≡ true)
  unfolding recorded_at
  record_recorded r path ref st g e olds =
      let (t, f) = found_by_path r path ref g in
      let at = record_exit-find r ref st t f in
      let before : recorded_of (find r ref) ≡ recorded_in (process_of t) =
        recorded_of-at (find r ref) (process_of t) (rw f refl) in
      let (kept, k, ke) = recorded_kept (process_of t) st e (λ old h. olds old (before ∙ h)) in
      (
        kept,
        recorded_of-at (find (record_exit r ref st) ref)
              (record_systemd_exit_state (process_of t) st) at
            ∙ k,
        ke,
      )

  pub record_state :
      (r : Registry W) (ref : Ref) (st : PState)
      → state_at (record_exit r ref st) ref ≡ state_at r ref
  unfolding state_at
  record_state r ref st = elim (Option-cases (find r ref)) [
    | inl e ↦
        let same : record_exit r ref st ≡ r = unfold record_exit in rw (e, record_exit) refl in
        ap (λ (x : Registry W). or_zero_state (find x ref)) same
    | inr (t, e) ↦
        state_of-at (find (record_exit r ref st) ref) (record_systemd_exit_state (process_of t) st)
          (record_exit-find r ref st t e)
        ∙ process_state-record (process_of t) st
        ∙ rw e refl
  ]
