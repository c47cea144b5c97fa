-- ===== src/Task.antt =====
-- process.go, state.go: init and exec processes, and how they take in an observation. What they
-- publish goes to the service's event channel, oldest first.
pub mod Fields
pub mod Calls
pub mod Once
pub mod Acts
pub mod Container
pub mod ContainerActs
use Prim.Native.String.{◌++◌ as text_append}
use containerd_shim_systemd.Prelude.{
  ℕ, Bool, true, false, ◌||◌, ◌&&◌, not, String, List, [], ◌∷◌, ◌++◌, Option, none, some, map,
  str_eq, if◌then◌else◌, ltb, ◌==◌,
}
use containerd_shim_systemd.Phase.{running, phase_lt}
use containerd_shim_systemd.State.{PState, zero_state, has_exited}
use containerd_shim_systemd.State.Time.{time_zero, zero_time}
use containerd_shim_systemd.State.Status.{exited_init}
use containerd_shim_systemd.State.Unit.{get_unit_state, load_exit_from_unit}
use containerd_shim_systemd.Outbox.{Event, task_exit, Outbox, send_event}
use containerd_shim_systemd.Process.{
  Process, apply_state, just_exited, was_running, process_state, load_recorded_systemd_exit_state,
}
use containerd_shim_systemd.Outside.{Outside, Call, StateFile, init_exit_status, exec_exit_status}

-- `container_id` and `bundle` are those of the parent, which do not change.
pub record ExecProcess : Type 0 where
  pub process : Process
  pub exec_id : String
  pub container_id : String
  pub bundle : String

pub record InitProcess : Type 0 where
  pub process : Process
  pub bundle : String
  pub checkpoint : String
  pub kill_all_on_exit : Bool
  pub execs : List (String × ExecProcess)

-- `unitName`.
unfoldable pub unit_name : String → String → String → String
unit_name ns id mod_ =
    let n = text_append "io-containerd-systemd-" (text_append ns (text_append "-" id)) in
    text_append (if str_eq mod_ "" then n else text_append n (text_append "-" mod_)) ".service"

unfoldable pub exec_name : ExecProcess → String
unfolding unit_name
exec_name p =
    unit_name p.process.ns (text_append p.container_id (text_append "-" p.process.id)) "exec"

unfoldable pub init_name : InitProcess → String
unfolding unit_name
init_name p = unit_name p.process.ns p.process.id "init"

-- A state after `Reset`.
abbrev pub reset_state : PState
reset_state = record { exited_at = time_zero; exit_code = 0; pid = 0; status = "" }

-- The world; the service's event channel, that is what `Service.send` has put into it; and the calls
-- that were made, oldest first.
pub record Shim (W : Type 0) : Type 0 where
  pub world : W
  pub channel : List (String × Event)
  pub calls : List Call

-- The observation of `SetState` for an exec that its container outlived: no code of its own.
abbrev pub reaped : ℕ → PState
reaped now = record { exited_at = now; exit_code = 255; pid = 0; status = "" }

module _ (o : Outside) where
  open o use {World, send, now, read_state_file, get_all, runc_kill_all}

  -- `p.events.Send`.
  unfoldable pub publish : Shim World → Process → Event → Shim World × Process
  publish s p evt =
      let r = send_event send p.events evt s.world in
      (
        record s {
          world = r.world;
          channel = s.channel ++ map (λ e. (p.events.ns, e)) r.published;
        },
        record p { events = r.box },
      )

  -- `execProcess.SetState`.
  unfoldable pub set_state_exec :
      Shim World → ExecProcess → PState → Shim World × ExecProcess × PState
  set_state_exec s p state =
      let (p', u) = apply_state (now s.world) p.process state in
      let exit =
        task_exit p.container_id p.exec_id u.state.exit_code u.state.exited_at u.state.pid in
      let (s', p'') = publish s p' exit in
      if just_exited u
      then (s', record p { process = p'' }, u.state)
      else (s, record p { process = p' }, u.state)

  -- `execProcess.LoadState`, which always returns nil.
  unfoldable pub load_state_exec : Shim World → ExecProcess → Shim World × ExecProcess
  load_state_exec s p =
      let (file, w) = read_state_file s.world (exec_exit_status p.bundle p.exec_id) in
      let s' = record s { world = w } in
      elim file [
        | none ↦ (s', p)
        | some st ↦ let (s'', p', _) = set_state_exec s' p st in (s'', p')
      ]

  -- What `initProcess.SetState` does for one exec once the container has exited.
  unfoldable pub reap_exec : Shim World → ExecProcess → Shim World × ExecProcess
  reap_exec s p =
      let (s', p') = load_state_exec s p in
      let (s'', p'', _) = set_state_exec s' p' (reaped (now s'.world)) in
      if phase_lt p'.process.phase running
      then (s', p')
      else if has_exited (process_state p'.process)
      then (s', p')
      else (s'', p'')

  -- `execs.Each`, in the order of the list.
  unfoldable pub reap_execs :
      Shim World → List (String × ExecProcess) → Shim World × List (String × ExecProcess)
  reap_execs s [] = (s, [])
  reap_execs s ((k, p) ∷ ps) =
      let (s', p') = reap_exec s p in let (s'', ps') = reap_execs s' ps in (s'', (k, p') ∷ ps')

  -- The `runc kill` of the container's children.
  unfoldable pub kill_children : Shim World → InitProcess → Bool → Shim World
  kill_children s p kill =
      if kill then record s { world = (runc_kill_all s.world p.process.id).1 } else s

  -- The end of `initProcess.SetState`, for the call that is told of the exit.
  unfoldable pub finish_exit : Shim World → InitProcess → PState → Bool → Shim World × InitProcess
  finish_exit s p st kill =
      let killed = kill_children s p kill in
      let (s', execs) = reap_execs killed p.execs in
      let p' = record p { execs = execs } in
      let exit = task_exit p.process.id p.process.id st.exit_code st.exited_at st.pid in
      let (s'', q) = publish s' p.process exit in
      if not (str_eq st.status exited_init) then (s'', record p' { process = q }) else (s', p')

  -- `initProcess.SetState`.
  unfoldable pub set_state_init :
      Shim World → InitProcess → PState → Shim World × InitProcess × PState
  set_state_init s p state =
      let (p', u) = apply_state (now s.world) p.process state in
      let kill = not (str_eq u.state.status exited_init) && (was_running u && p.kill_all_on_exit) in
      let (s', q) = finish_exit s (record p { process = p' }) u.state kill in
      if just_exited u then (s', q, u.state) else (s, record p { process = p' }, u.state)

  -- `initProcess.LoadState` with an exit state file.
  unfoldable pub load_init_file :
      Shim World → InitProcess → PState → Shim World × InitProcess × Bool
  load_init_file s p st =
      let st' =
        if ltb 0 st.pid && str_eq st.status "" then record st { status = "running" } else st in
      let (s', p', _) = set_state_init s p st' in (s', p', true)

  -- With none, and a process that has a process id.
  unfoldable pub load_init_unit : Shim World → InitProcess → Shim World × InitProcess × Bool
  load_init_unit s p =
      let (props, w) = get_all s.world (init_name p) in
      let (st, ok) = get_unit_state props reset_state in
      let s' = record s { world = w } in
      let (s'', p', _) = set_state_init s' p st in
      if not ok then (s', p, false) else (s'', p', true)

  -- `initProcess.LoadState`; the result is whether it returned nil.
  unfoldable pub load_state_init : Shim World → InitProcess → Shim World × InitProcess × Bool
  load_state_init s p =
      let (file, w) = read_state_file s.world (init_exit_status p.bundle) in
      let s' = record s { world = w } in
      let from_unit = load_init_unit s' p in
      elim file [
        | some st ↦ load_init_file s' p st
        | none ↦ if p.process.state.pid == 0 then (s', p, true) else from_unit
      ]

  -- `LoadExitState`, of the two kinds of process.
  unfoldable pub load_exit_state_exec : Shim World → ExecProcess → Shim World × ExecProcess × Bool
  load_exit_state_exec s p =
      let (recorded, has) = load_recorded_systemd_exit_state p.process in
      let (s', p', _) = set_state_exec s p recorded in
      let (props, w) = get_all s.world (exec_name p) in
      let s'' = record s { world = w } in
      if has then (s', p', true) else elim (load_exit_from_unit (now w) props) [
        | none ↦ (s'', p, false)
        | some st ↦ let (s3, q, _) = set_state_exec s'' p st in (s3, q, true)
      ]

  unfoldable pub load_exit_state_init : Shim World → InitProcess → Shim World × InitProcess × Bool
  load_exit_state_init s p =
      let (recorded, has) = load_recorded_systemd_exit_state p.process in
      let (s', p', _) = set_state_init s p recorded in
      let (props, w) = get_all s.world (init_name p) in
      let s'' = record s { world = w } in
      if has then (s', p', true) else elim (load_exit_from_unit (now w) props) [
        | none ↦ (s'', p, false)
        | some st ↦ let (s3, q, _) = set_state_init s'' p st in (s3, q, true)
      ]
