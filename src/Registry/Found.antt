-- ===== src/Registry/Found.antt =====
-- process.go: a record through one pointer leaves every other tracked.
use containerd_shim_systemd.Prelude.{
  ◌≡◌, refl, ap, subst, String, List, Option, none, some, arith, Bool-cases, Option-cases, inl, inr,
  str_eq, str_eq_iff,
}
use containerd_shim_systemd.Prelude.Assoc.{lookup, insert, lookup-insert}
use containerd_shim_systemd.State.{PState}
use containerd_shim_systemd.Task.{ExecProcess, InitProcess}
use containerd_shim_systemd.Process.{Process, record_systemd_exit_state}
use containerd_shim_systemd.Registry.{
  Ref, init_ref, exec_ref, Registry, Tracked, init_process, exec_process, as_init, as_exec, exec_of,
  record_tracked, find, put, get_by_path, record_exit, is_found, existing,
}
use containerd_shim_systemd.Registry.Lookup.{as_init-kind, exec_of-kind}

as_exec-insert :
    (parent : InitProcess) (execs : List (String × ExecProcess)) (id id' : String)
    (p q : ExecProcess)
    → lookup id execs ≡ some p
    → is_found
        (as_exec (record parent { execs = insert id q execs }) (lookup id' (insert id q execs)))
      ≡ is_found (as_exec parent (lookup id' execs))
as_exec-insert parent execs id id' p q h = elim (Bool-cases (str_eq id id')) [
  | inl same ↦
      let k = (str_eq_iff id id').0 same in rw (lookup-insert id id' q execs, same, ← k, h) refl
  | inr other ↦
      rw (lookup-insert id id' q execs, other)
        (elim (Option-cases (lookup id' execs)) [ inl e ↦ rw e refl | inr (x, e) ↦ rw e refl ])
]

as_exec-parent :
    (a b : InitProcess) (x : Option ExecProcess) → is_found (as_exec a x) ≡ is_found (as_exec b x)
as_exec-parent a b none = refl
as_exec-parent a b (some p) = refl

as_init-some :
    (x : Option InitProcess) {p : InitProcess} → as_init x ≡ some (init_process p) → x ≡ some p
as_init-some none h = cc
as_init-some (some q) h = cc

as_exec-some :
    (parent : InitProcess) (x : Option ExecProcess) {a : InitProcess} {p : ExecProcess}
    → as_exec parent x ≡ some (exec_process a p)
    → (parent ≡ a) × (x ≡ some p)
as_exec-some parent none h = absurd (cc)
as_exec-some parent (some q) h = (cc, cc)

exec_of-some :
    (id : String) (x : Option InitProcess) {a : InitProcess} {p : ExecProcess}
    → exec_of id x ≡ some (exec_process a p)
    → (x ≡ some a) × (lookup id a.execs ≡ some p)
exec_of-some id none h = absurd (cc)
exec_of-some id (some q) {a} {p} h =
    let (e, f) = as_exec-some q (lookup id q.execs) h in
    (ap some e, subst (λ (b : InitProcess). lookup id b.execs ≡ some p) e f)

module _ {W : Type 0} where
  -- A record through one pointer leaves every other where it is.
  put_init-found :
      (r : Registry W) (key : String) (p : InitProcess) (x : Process) (ref : Ref)
      → lookup key r.processes ≡ some p
      → is_found (find (put r (init_ref key) (init_process (record p { process = x }))) ref)
        ≡ is_found (find r ref)
  unfolding find put
  put_init-found r key p x (init_ref key') h =
      let q = record p { process = x } in
      ground (arith, lookup-insert key key' q r.processes, str_eq_iff key key')
  put_init-found r key p x (exec_ref key' id) h =
      let q = record p { process = x } in
      elim (Bool-cases (str_eq key key')) [
        | inl same ↦
            let k = (str_eq_iff key key').0 same in
            rw (lookup-insert key key' q r.processes, same, ← k, h)
              (as_exec-parent q p (lookup id p.execs))
        | inr other ↦ rw (lookup-insert key key' q r.processes, other) refl
      ]

  put_exec-found :
      (r : Registry W) (key id : String) (a : InitProcess) (p q : ExecProcess) (ref : Ref)
      → lookup key r.processes ≡ some a
      → lookup id a.execs ≡ some p
      → is_found (find (put r (exec_ref key id) (exec_process a q)) ref) ≡ is_found (find r ref)
  unfolding find put
  put_exec-found r key id a p q (init_ref key') h e =
      let b = record a { execs = insert id q a.execs } in
      ground (arith, lookup-insert key key' b r.processes, str_eq_iff key key')
  put_exec-found r key id a p q (exec_ref key' id') h e =
      let b = record a { execs = insert id q a.execs } in
      elim (Bool-cases (str_eq key key')) [
        | inl same ↦
            let k = (str_eq_iff key key').0 same in
            rw (lookup-insert key key' b r.processes, same, ← k, h)
              (as_exec-insert a a.execs id id' p q e)
        | inr other ↦ rw (lookup-insert key key' b r.processes, other) refl
      ]

  put-found :
      (r : Registry W) (ref ref' : Ref) (t : Tracked) (st : PState)
      → find r ref ≡ some t
      → is_found (find (put r ref (record_tracked st t)) ref') ≡ is_found (find r ref')
  unfolding find record_tracked
  put-found r (init_ref key) ref' (init_process p) st h =
      put_init-found r key p (record_systemd_exit_state p.process st) ref'
        (as_init-some (lookup key r.processes) h)
  put-found r (init_ref key) ref' (exec_process a p) st h =
      absurd (as_init-kind (lookup key r.processes) h)
  put-found r (exec_ref key id) ref' (exec_process a p) st h =
      let (e, f) = exec_of-some id (lookup key r.processes) h in
      put_exec-found r key id a p (record p { process = record_systemd_exit_state p.process st })
        ref' e f
  put-found r (exec_ref key id) ref' (init_process p) st h =
      absurd (exec_of-kind id (lookup key r.processes) h)

  put-units : (r : Registry W) (ref : Ref) (t : Tracked) → (put r ref t).units ≡ r.units
  unfolding put
  put-units r (init_ref key) (init_process p) = refl
  put-units r (init_ref key) (exec_process a p) = refl
  put-units r (exec_ref key id) (init_process p) = refl
  put-units r (exec_ref key id) (exec_process a p) = refl

  existing-found :
      (r s : Registry W) (x : Option Ref)
      → ((ref : Ref) → is_found (find s ref) ≡ is_found (find r ref))
      → existing s x ≡ existing r x
  existing-found r s none h = refl
  existing-found r s (some ref) h = rw (h ref) refl

  -- A record changes no answer of `GetByPath`.
  pub record_path :
      (r : Registry W) (ref : Ref) (st : PState) (path : String)
      → get_by_path (record_exit r ref st) path ≡ get_by_path r path
  unfolding get_by_path record_exit put
  record_path r ref st path = elim (Option-cases (find r ref)) [
    | inl e ↦ rw (e, record_exit) refl
    | inr (t, e) ↦
        rw (e, record_exit, put-units r ref (record_tracked st t))
          (existing-found r (put r ref (record_tracked st t)) (lookup path r.units)
            (λ ref'. put-found r ref ref' t st e))
  ]
