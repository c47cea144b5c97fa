-- ===== src/Task/ContainerActs.antt =====
-- process.go and state.go: what may be done with a container, in any order, and how often containerd is
-- told of its exit.
use containerd_shim_systemd.Prelude.{
  ◌≤◌, ◌≡◌, refl, ap, inl, inr, Bool, false, String, List, [], ◌∷◌, ◌++◌, arith, if◌then◌else◌,
  Option-cases, Bool-cases, ◌==◌, ltb, str_eq, ◌&&◌,
}
use containerd_shim_systemd.State.{PState}
use containerd_shim_systemd.State.Unit.{get_unit_state, load_exit_from_unit}
use containerd_shim_systemd.Outbox.{Event}
use containerd_shim_systemd.Outbox.Count.{count, one_if, count-append}
use containerd_shim_systemd.Process.{Process, load_recorded_systemd_exit_state}
use containerd_shim_systemd.Process.Exit.{past, past-le_one}
use containerd_shim_systemd.Outside.{Outside, init_exit_status}
use containerd_shim_systemd.Task.{
  ExecProcess, InitProcess, Shim, init_name, publish, reset_state, set_state_init, load_init_file,
  load_init_unit, load_state_init, load_exit_state_init,
}
use containerd_shim_systemd.Task.Once.{is_exit_of, events_in, events_in-append, publish-count}
use containerd_shim_systemd.Task.Acts.{IsLocked}
use containerd_shim_systemd.Task.Container.{
  AllQuiet, IsOnceInit, told_init, set_state_init-IsOnceInit,
}

module _ (o : Outside) (test : Event → Bool) where
  open o use {World, now, read_state_file, get_all}

  load_init_file-IsOnceInit :
      (s : Shim World) (p : InitProcess) (st : PState)
      → IsOnceInit o test (s, p)
      → let (s', p', ok) = load_init_file o s p st in IsOnceInit o test (s', p')
  unfolding load_init_file
  load_init_file-IsOnceInit s p st h =
      let st' =
        if ltb 0 st.pid && str_eq st.status "" then record st { status = "running" } else st in
      set_state_init-IsOnceInit o test s p st' h

  load_init_unit-IsOnceInit :
      (s : Shim World) (p : InitProcess)
      → IsOnceInit o test (s, p)
      → let (s', p', ok) = load_init_unit o s p in IsOnceInit o test (s', p')
  unfolding load_init_unit
  load_init_unit-IsOnceInit s p h =
      let (props, w) = get_all s.world (init_name p) in
      let (st, ok) = get_unit_state props reset_state in
      elim (Bool-cases ok) [
        | inl read ↦
            rw (read, load_init_unit)
              (set_state_init-IsOnceInit o test (record s { world = w }) p st h)
        | inr unread ↦ rw (unread, load_init_unit) h
      ]

  load_state_init-IsOnceInit :
      (s : Shim World) (p : InitProcess)
      → IsOnceInit o test (s, p)
      → let (s', p', ok) = load_state_init o s p in IsOnceInit o test (s', p')
  unfolding load_state_init
  load_state_init-IsOnceInit s p h =
      let (file, w) = read_state_file s.world (init_exit_status p.bundle) in
      let s' = record s { world = w } in
      elim (Option-cases file) [
        | inr (st, found) ↦ rw (found, load_state_init) (load_init_file-IsOnceInit s' p st h)
        | inl no_file ↦ elim (Bool-cases (p.process.state.pid == 0)) [
          | inl idle ↦ rw (no_file, idle, load_state_init) h
          | inr runs ↦ rw (no_file, runs, load_state_init) (load_init_unit-IsOnceInit s' p h)
        ]
      ]

  load_exit_state_init-IsOnceInit :
      (s : Shim World) (p : InitProcess)
      → IsOnceInit o test (s, p)
      → let (s', p', ok) = load_exit_state_init o s p in IsOnceInit o test (s', p')
  unfolding load_exit_state_init
  load_exit_state_init-IsOnceInit s p h =
      let (recorded, has) = load_recorded_systemd_exit_state p.process in
      let (props, w) = get_all s.world (init_name p) in
      let s' = record s { world = w } in
      elim (Bool-cases has) [
        | inl told ↦
            rw (told, load_exit_state_init) (set_state_init-IsOnceInit o test s p recorded h)
        | inr untold ↦ elim (Option-cases (load_exit_from_unit (now w) props)) [
          | inl e ↦ rw (untold, e, load_exit_state_init) h
          | inr (st, e) ↦
              rw (untold, e, load_exit_state_init) (set_state_init-IsOnceInit o test s' p st h)
        ]
      ]

  -- What a goroutine does with a container: as with an exec, or a change of its execs.
  pub data InitAct : Type 0 where
    observes_state : PState → InitAct
    loads loads_exit : InitAct
    publishes : Event → InitAct
    locked : (q : Process → Process) → InitAct
    sets_execs : List (String × ExecProcess) → InitAct
    elsewhere : (w : World) (sent : List (String × Event)) → InitAct

  unfoldable pub act_init : Shim World × InitProcess → InitAct → Shim World × InitProcess
  act_init (s, p) (observes_state st) = let (s', p', merged) = set_state_init o s p st in (s', p')
  act_init (s, p) loads = let (s', p', ok) = load_state_init o s p in (s', p')
  act_init (s, p) loads_exit = let (s', p', ok) = load_exit_state_init o s p in (s', p')
  act_init (s, p) (publishes e) =
      let (s', q) = publish o s p.process e in (s', record p { process = q })
  act_init (s, p) (locked f) = (s, record p { process = f p.process })
  act_init (s, p) (sets_execs es) = (s, record p { execs = es })
  act_init (s, p) (elsewhere w sent) = (record s { world = w; channel = s.channel ++ sent }, p)

  -- Nothing but the container's `SetState` makes an event that passes the test.
  abbrev pub IsFairInit : InitAct → Type 0
  IsFairInit (publishes e) = test e ≡ false
  IsFairInit (locked f) = IsLocked o f
  IsFairInit (sets_execs es) = AllQuiet o test es
  IsFairInit (elsewhere w sent) = count test (events_in sent) ≡ 0
  IsFairInit _ = Unit

  abbrev pub init_acts : Shim World × InitProcess → List InitAct → Shim World × InitProcess
  init_acts r [] = r
  init_acts r (a ∷ rest) = init_acts (act_init r a) rest

  abbrev pub AllFairInit : List InitAct → Type 0
  AllFairInit [] = Unit
  AllFairInit (a ∷ rest) = IsFairInit a × AllFairInit rest

  act_init-IsOnceInit :
      (s : Shim World) (p : InitProcess) (a : InitAct)
      → IsFairInit a
      → IsOnceInit o test (s, p)
      → IsOnceInit o test (act_init (s, p) a)
  unfolding act_init
  act_init-IsOnceInit s p (observes_state st) f h = set_state_init-IsOnceInit o test s p st h
  act_init-IsOnceInit s p loads f h = load_state_init-IsOnceInit s p h
  act_init-IsOnceInit s p loads_exit f h = load_exit_state_init-IsOnceInit s p h
  act_init-IsOnceInit s p (publishes e) f (h, quiet) =
      let (sum, phase) = publish-count o test s p.process e in
      let none_new : one_if test e ≡ 0 = rw f refl in
      let same = ap past phase in (omega (arith, h, sum, none_new, same), quiet)
  act_init-IsOnceInit s p (locked g) f (h, quiet) =
      let (later, same, _) = f p.process in (rw same (omega (arith, h, later)), quiet)
  act_init-IsOnceInit s p (sets_execs es) f (h, quiet) = (h, f)
  act_init-IsOnceInit s p (elsewhere w sent) f (h, quiet) = (
    rw (events_in-append s.channel sent)
        (omega (arith, f, h, count-append test (events_in s.channel) (events_in sent))),
    quiet,
  )

  init_acts-IsOnceInit :
      (s : Shim World) (p : InitProcess) (todo : List InitAct)
      → AllFairInit todo
      → IsOnceInit o test (s, p)
      → IsOnceInit o test (init_acts (s, p) todo)
  init_acts-IsOnceInit s p [] f h = h
  init_acts-IsOnceInit s p (a ∷ rest) (fair, f) h =
      let r = act_init (s, p) a in
      init_acts-IsOnceInit r.0 r.1 rest f (act_init-IsOnceInit s p a fair h)

-- Whatever systemd and the create helper say of a container, however often, whichever sends fail, and
-- whatever becomes of its execs: from a registered container with nothing told of it on, containerd is
-- told of its exit at most once, counting what the outbox still holds. No exec has the id of the
-- container, and only the container's own `SetState` may make exit events of it.
pub init_acts-told_once :
    (o : Outside) (s : Shim (o.World)) (p : InitProcess)
    (todo : List (InitAct o (is_exit_of p.process.id p.process.id)))
    → let test = is_exit_of p.process.id p.process.id in
      told_init o test s p ≡ 0
      → AllQuiet o test p.execs
      → AllFairInit o test todo
      → let (s', p') = init_acts o test (s, p) todo in told_init o test s' p' ≤ 1
init_acts-told_once o s p todo none_yet quiet f =
    let test = is_exit_of p.process.id p.process.id in
    let (s', p') = init_acts o test (s, p) todo in
    let (once, still) = init_acts-IsOnceInit o test s p todo f (omega (arith, none_yet), quiet) in
    omega (arith, once, past-le_one p'.process.phase)
