-- ===== src/Requests.antt =====
-- delete.go, create.go, wait.go and state.go: requests of containerd, over the managers. A request
-- for a container or an exec that is not there is answered `none`, which is `errdefs.ErrNotFound`.
pub mod Tracking
pub mod Start
pub mod Control
pub mod Signalled
pub mod Dropped
use Prim.Native.String.{◌++◌ as text_append}
use containerd_shim_systemd.Prelude.{
  ℕ, Bool, true, false, ◌&&◌, ◌||◌, not, String, List, [], ◌∷◌, ◌++◌, Option, none, some, str_eq,
  ltb, if◌then◌else◌,
}
use containerd_shim_systemd.Prelude.Assoc.{insert, remove}
use containerd_shim_systemd.Phase.{running, phase_lt}
use containerd_shim_systemd.State.{PState, has_exited}
use containerd_shim_systemd.State.Time.{time_zero, after}
use containerd_shim_systemd.State.Status.{exited_init}
use containerd_shim_systemd.State.Unit.{get_unit_state}
use containerd_shim_systemd.Outbox.{task_exec_added}
use containerd_shim_systemd.Process.{Process, mark_deleting, new_process, process_state}
use containerd_shim_systemd.Outside.{Outside}
use containerd_shim_systemd.Task.{
  ExecProcess, InitProcess, unit_name, exec_name, init_name, Shim, publish,
}
use containerd_shim_systemd.Wait.{Wake, looks_at, wait_for_exit, waiting, cancelled, returned}
use containerd_shim_systemd.Teardown.{
  Outcome, ok, failed_precondition, failed, blocked, release_unit, reset_failed_unit, delete_init,
  delete_exec, state_dir,
}
use containerd_shim_systemd.Registry.{
  Registry, Ref, init_ref, exec_ref, Tracked, process_of, init_process, exec_process, add_process,
  get_process, delete_process, add_unit, delete_unit, find, state_at, pid_at, load_at,
  load_state_tracked, load_exit_state_tracked,
}

-- `execProcess.State`: the state that is reported.
unfoldable pub state_exec : Process → ExecProcess → PState
state_exec parent p =
    let st = process_state p.process in
    let init_died = str_eq st.status exited_init && has_exited (process_state parent) in
    if init_died || (phase_lt p.process.phase running && not (has_exited st))
    then record st { status = "created"; exit_code = 0; exited_at = time_zero }
    else st

-- `initProcess.State`.
unfoldable pub state_init : InitProcess → PState
state_init p = process_state p.process

-- `Service.State`.
unfoldable pub state_request : List (String × InitProcess) → String → String → Option PState
state_request processes key exec_id = elim (get_process processes key) [
  | none ↦ none
  | some p ↦ if str_eq exec_id "" then some (state_init p) else elim (get_process p.execs exec_id) [
    | none ↦ none
    | some e ↦ some (state_exec p.process e)
  ]
]

module _ (o : Outside) where
  open o use {World, ctx_done, get_all, path_bus_escape, write_exec}

  -- `Service.Delete` of an exec.
  unfoldable pub delete_exec_request :
      List Wake
      → Registry World
      → String
      → InitProcess
      → String
      → ExecProcess
      → Registry World × Outcome PState
  delete_exec_request wakes r key parent exec_id e =
      let (s, e', out) = delete_exec o wakes r.shim parent.process e in
      let gone = record parent { execs = delete_process parent.execs exec_id } in
      let kept = record parent { execs = insert exec_id e' parent.execs } in
      let r' = record r { shim = s; processes = insert key gone r.processes } in
      elim out [
        | ok st ↦ (delete_unit r' e.process.path_name, ok st)
        | failed_precondition ↦
            (record r { shim = s; processes = insert key kept r.processes }, failed_precondition)
        | failed ↦ (record r { shim = s; processes = insert key kept r.processes }, failed)
        | blocked ↦ (record r { shim = s; processes = insert key kept r.processes }, blocked)
      ]

  -- What `Service.Delete` does with the execs that the container leaves: each is marked, and its unit
  -- is given back and is tracked no more.
  unfoldable pub sweep_execs : Registry World → List (String × ExecProcess) → Registry World
  sweep_execs r [] = r
  sweep_execs r ((k, e) ∷ es) =
      let s = (reset_failed_unit o (release_unit o r.shim (exec_name e)) (exec_name e)).0 in
      let marked = record e { process = mark_deleting e.process } in
      let r' = record r { shim = s; dropped = r.dropped ++ marked ∷ [] } in
      sweep_execs (delete_unit r' e.process.path_name) es

  -- `Service.Delete` of a container.
  unfoldable pub delete_init_request :
      List Wake → Registry World → String → InitProcess → Registry World × Outcome PState
  delete_init_request wakes r key p =
      let (s, p', out) = delete_init o wakes r.shim p in
      let swept = sweep_execs (record r { shim = s }) p'.execs in
      let untracked = record swept { processes = delete_process swept.processes key } in
      let kept = record r { shim = s; processes = insert key p' r.processes } in
      elim out [
        | ok st ↦ (delete_unit untracked p.process.path_name, ok st)
        | failed_precondition ↦ (kept, failed_precondition)
        | failed ↦ (kept, failed)
        | blocked ↦ (kept, blocked)
      ]

  -- `Service.Delete`.
  unfoldable pub delete_request :
      List Wake → Registry World → String → String → Registry World × Option (Outcome PState)
  delete_request wakes r key exec_id = elim (get_process r.processes key) [
    | none ↦ (r, none)
    | some p ↦
        if str_eq exec_id ""
        then (let (r', out) = delete_init_request wakes r key p in (r', some out))
        else elim (get_process p.execs exec_id) [
          | none ↦ (r, none)
          | some e ↦ let (r', out) = delete_exec_request wakes r key p exec_id e in (r', some out)
        ]
  ]

  -- The exec that `Service.Exec` registers.
  unfoldable pub new_exec : InitProcess → String → Bool → ExecProcess
  new_exec parent exec_id terminal =
      let id = text_append parent.process.id (text_append "-" exec_id) in
      let path_name = path_bus_escape (unit_name parent.process.ns id "exec") in
      record {
        process = new_process parent.process.ns exec_id path_name terminal;
        exec_id = exec_id;
        container_id = parent.process.id;
        bundle = parent.bundle;
      }

  -- `Service.Exec` once the exec is registered.
  unfoldable pub finish_exec :
      Registry World → String → InitProcess → ExecProcess → Registry World × Outcome (Unit {0})
  finish_exec r key parent e =
      let dropped = record parent { execs = delete_process parent.execs e.exec_id } in
      let (written, w) = write_exec r.shim.world (state_dir e) in
      let s = record (r.shim) { world = w } in
      let added = task_exec_added parent.process.id e.exec_id in
      let (s', q) = publish o s e.process added in
      let kept = record parent {
        execs = insert e.exec_id (record e { process = q }) parent.execs;
      } in
      let undone = record r { processes = insert key dropped r.processes } in
      if parent.process.deleting
      then (delete_unit undone e.process.path_name, failed_precondition)
      else if not written
      then (delete_unit (record undone { shim = s }) e.process.path_name, failed)
      else (record r { shim = s'; processes = insert key kept r.processes }, ok tt)

  -- `Service.Exec`; an exec of that id makes it fail with `errdefs.ErrAlreadyExists`.
  unfoldable pub exec_request :
      Registry World → String → String → Bool → Registry World × Option (Outcome (Unit {0}))
  exec_request r key exec_id terminal = elim (get_process r.processes key) [
    | none ↦ (r, none)
    | some p ↦
        let e = new_exec p exec_id terminal in
        elim (add_process p.execs exec_id e) [
          | none ↦ (r, some failed)
          | some execs ↦
              let p' = record p { execs = execs } in
              let r' = record r { processes = insert key p' r.processes } in
              let (r'', out) =
                finish_exec (add_unit r' e.process.path_name (exec_ref key exec_id)) key p' e in
              (r'', some out)
        ]
  ]

  -- The end of `Service.Wait`: an exit without a time is read from the unit once more.
  unfoldable pub answer_wait : Shim World → String → PState → Shim World × PState
  answer_wait s name st =
      let (props, w) = get_all s.world name in
      let read = (get_unit_state props st).0 in
      if after st.exited_at time_zero then (s, st) else (record s { world = w }, read)

  abbrev pub name_of : Tracked → String
  name_of (init_process p) = init_name p
  name_of (exec_process parent p) = exec_name p

  abbrev pub name_at : Option Tracked → String
  name_at none = ""
  name_at (some t) = name_of t

  abbrev pub looks_at_found : Bool → Option Tracked → List Wake → List Wake
  looks_at_found is_done none ws = ws
  looks_at_found is_done (some t) ws = looks_at is_done (process_of t) ws

  -- `Service.Wait` of a process that is there.
  unfoldable pub wait_request : List Wake → Registry World → Ref → Registry World × Outcome PState
  wait_request wakes r ref =
      let r1 = (load_at o (load_state_tracked o) r ref).0 in
      let r2 = (load_at o (load_exit_state_tracked o) r1 ref).0 in
      let reads = not (has_exited (state_at r1 ref)) && ltb 0 (pid_at r1 ref) in
      let r3 = if reads then r2 else r1 in
      elim (wait_for_exit (looks_at_found (ctx_done r3.shim.world) (find r3 ref) wakes)) [
        | waiting ↦ (r3, blocked)
        | cancelled ↦ (r3, failed)
        | returned q st ↦
            let (s, st') = answer_wait r3.shim (name_at (find r3 ref)) st in
            (record r3 { shim = s }, ok st')
      ]
