-- ===== src/Requests/Start.antt =====
-- start.go: `Service.Start`, and `initProcess.Start` of any container.
use containerd_shim_systemd.Prelude.{
  ℕ, ◌≡◌, ◌≢◌, refl, ap, ◌∙◌, inl, inr, String, Option, none, some, str_eq, str_eq_refl, arith,
  if◌then◌else◌, Option-cases,
}
use containerd_shim_systemd.Prelude.Assoc.{lookup, insert, lookup-insert, lookup-remove}
use containerd_shim_systemd.Phase.{created}
use containerd_shim_systemd.Process.{Process, begin_start, abort_start}
use containerd_shim_systemd.Process.Exit.{begin_start-granted}
use containerd_shim_systemd.Outside.{Outside}
use containerd_shim_systemd.Task.{ExecProcess, InitProcess, Shim}
use containerd_shim_systemd.Teardown.{
  Outcome, ok, failed_precondition, failed, blocked, finish_start_init, finish_start_exec,
}
use containerd_shim_systemd.Startup.{is_error, start_exec}
use containerd_shim_systemd.Startup.Container.{start_init, restore}
use containerd_shim_systemd.Registry.{Registry, get_process, delete_unit}

module _ (o : Outside) where
  open o use {World}

  -- `initProcess.Start`; `n` bounds the loads that are waited for.
  unfoldable pub start_container :
      (Process → Process) → ℕ → Shim World → InitProcess → Shim World × InitProcess × Outcome ℕ
  start_container others n s p =
      let (claimed, err) = begin_start p.process in
      let (s', q, out) = restore o others s (record p { process = claimed }) in
      let aborted = record q { process = abort_start q.process } in
      let plain = start_init o n s p in
      if str_eq p.checkpoint "" then plain else elim err [
        | some e ↦ (s, p, failed_precondition)
        | none ↦ (s', if is_error out then aborted else q, out)
      ]

  -- `Service.Start` of a container.
  unfoldable pub start_init_request :
      (Process → Process) → ℕ → Registry World → String → InitProcess → Registry World × Outcome ℕ
  start_init_request others n r key p =
      let (s, p', out) = start_container others n r.shim p in
      let kept = record r { shim = s; processes = insert key p' r.processes } in
      elim out [
        | ok pid ↦
            let (s', q) = finish_start_init o s p' pid in
            (record r { shim = s'; processes = insert key q r.processes }, ok pid)
        | failed_precondition ↦ (kept, failed_precondition)
        | failed ↦ (kept, failed)
        | blocked ↦ (kept, blocked)
      ]

  -- What `Service.Start` does once the start of an exec is over; one that failed is tracked no more.
  unfoldable pub end_start_exec :
      Registry World
      → String
      → String
      → String
      → Shim World × InitProcess × ExecProcess × Outcome ℕ
      → Registry World × Outcome ℕ
  end_start_exec r key exec_id path (s, parent, e, out) =
      let with_exec : ExecProcess → InitProcess =
        λ x. record parent { execs = insert exec_id x parent.execs } in
      let kept = record r { shim = s; processes = insert key (with_exec e) r.processes } in
      let untracked = delete_unit kept path in
      elim out [
        | ok pid ↦
            let (s', q) = finish_start_exec o s e pid in
            (record r { shim = s'; processes = insert key (with_exec q) r.processes }, ok pid)
        | failed_precondition ↦ (untracked, failed_precondition)
        | failed ↦ (untracked, failed)
        | blocked ↦ (kept, blocked)
      ]

  -- `Service.Start` of an exec.
  unfoldable pub start_exec_request :
      (Process → Process)
      → Registry World
      → String
      → InitProcess
      → String
      → ExecProcess
      → Registry World × Outcome ℕ
  start_exec_request others r key parent exec_id e =
      end_start_exec r key exec_id e.process.path_name (start_exec o others r.shim parent e)

  -- `Service.Start`.
  unfoldable pub start_request :
      (Process → Process)
      → ℕ
      → Registry World
      → String
      → String
      → Registry World × Option (Outcome ℕ)
  start_request others n r key exec_id = elim (get_process r.processes key) [
    | none ↦ (r, none)
    | some p ↦
        if str_eq exec_id ""
        then (let (r', out) = start_init_request others n r key p in (r', some out))
        else elim (get_process p.execs exec_id) [
          | none ↦ (r, none)
          | some e ↦ let (r', out) = start_exec_request others r key p exec_id e in (r', some out)
        ]
  ]

  start_exec-refused :
      (others : Process → Process) (s : Shim World) (parent : InitProcess) (e : ExecProcess)
      → e.process.phase ≢ created
      → start_exec o others s parent e ≡ (s, parent, e, failed_precondition)
  unfolding start_exec
  start_exec-refused others s parent e h = elim (Option-cases (begin_start e.process).1) [
    | inl granted ↦ absurd (h (begin_start-granted e.process granted).0)
    | inr (err, refused) ↦ rw (refused, start_exec) refl
  ]

  -- Starting an exec again that was started before, and may be running, is refused and asks nothing of
  -- anyone; the exec stays as it is, but its unit is tracked no more, so that no signal of its exit
  -- finds it.
  pub start_exec_request-again :
      (others : Process → Process) (r : Registry World) (key : String) (parent : InitProcess)
      (exec_id : String) (e : ExecProcess)
      → e.process.phase ≢ created
      → let (r', out) = start_exec_request others r key parent exec_id e in
        (out ≡ failed_precondition)
        × (r'.shim ≡ r.shim)
        × (lookup key r'.processes ≡ some (record parent { execs = insert exec_id e parent.execs }))
        × (lookup e.process.path_name r'.units ≡ none)
  unfolding start_exec_request end_start_exec delete_unit
  start_exec_request-again others r key parent exec_id e h =
      let path = e.process.path_name in
      let kept = record parent { execs = insert exec_id e parent.execs } in
      let ends =
        ap (end_start_exec r key exec_id path) (start_exec-refused others r.shim parent e h) in
      (
        ap (λ x. x.1) ends,
        ap (λ x. x.0.shim) ends,
        ap (λ x. lookup key x.0.processes) ends
            ∙ (lookup-insert key key kept r.processes ∙ ground (arith, str_eq_refl key)),
        ap (λ x. lookup path x.0.units) ends
            ∙ (lookup-remove path path r.units ∙ ground (arith, str_eq_refl path)),
      )
