-- ===== src/Task/Acts.antt =====
-- process.go and state.go: what may be done with an exec, in any order, and what containerd is told of it.
use containerd_shim_systemd.Prelude.{
  ℕ, ◌≤◌, ◌≡◌, ◌≢◌, refl, sym, ap, ◌∙◌, inl, inr, false, String, List, [], ◌∷◌, ◌++◌, arith,
  Option-cases,
}
use containerd_shim_systemd.Phase.{running, exited, deleted}
use containerd_shim_systemd.State.{PState}
use containerd_shim_systemd.State.Unit.{load_exit_from_unit}
use containerd_shim_systemd.Outbox.{Event}
use containerd_shim_systemd.Outbox.Count.{count, one_if, count-append}
use containerd_shim_systemd.Process.{
  Process, advance, begin_start, abort_start, record_systemd_exit_state,
  clear_recorded_systemd_exit_state, load_recorded_systemd_exit_state, mark_deleting, set_pid,
}
use containerd_shim_systemd.Process.Lifecycle.{
  Step, begins, aborts, finishes, deletes, records, clears, marks, sets_pid,
}
use containerd_shim_systemd.Process.Exit.{past, past-le_one, exits_by, Step-count}
use containerd_shim_systemd.Outside.{Outside, exec_exit_status}
use containerd_shim_systemd.Task.{
  ExecProcess, Shim, exec_name, publish, set_state_exec, load_state_exec, load_exit_state_exec,
}
use containerd_shim_systemd.Task.Once.{
  is_exit_of, events_in, events_in-append, told, publish-count, IsOnce, set_state_exec-IsOnce,
  load_state_exec-IsOnce, load_exit_state_exec-IsOnce,
}

module _ (o : Outside) where
  open o use {World, send, now, read_state_file, get_all}

  -- What a goroutine does with an exec: an observation, a load of its state, an event of another kind,
  -- a change under the lock that is none of these; or with the rest of the shim.
  pub data Act : Type 0 where
    observes_state : PState → Act
    loads loads_exit : Act
    publishes : Event → Act
    locked : (q : Process → Process) → Act
    elsewhere : (w : World) (sent : List (String × Event)) → Act

  unfoldable pub act : Shim World × ExecProcess → Act → Shim World × ExecProcess
  act (s, p) (observes_state st) = let (s', p', merged) = set_state_exec o s p st in (s', p')
  act (s, p) loads = load_state_exec o s p
  act (s, p) loads_exit = let (s', p', ok) = load_exit_state_exec o s p in (s', p')
  act (s, p) (publishes e) = let (s', q) = publish o s p.process e in (s', record p { process = q })
  act (s, p) (locked f) = (s, record p { process = f p.process })
  act (s, p) (elsewhere w sent) = (record s { world = w; channel = s.channel ++ sent }, p)

  -- A change under the lock is a step of the lifecycle with no observation: it ends no process, brings
  -- none back, and leaves the outbox.
  abbrev pub IsLocked : (Process → Process) → Type 0
  IsLocked f =
      (p : Process)
      → (past p.phase ≤ past (f p).phase)
        × ((f p).events ≡ p.events)
        × ((f p).phase ≡ exited → p.phase ≡ exited)

  -- Nothing but `SetState` makes an exit event of the exec.
  abbrev pub IsFair : String → String → Act → Type 0
  IsFair c x (publishes e) = is_exit_of c x e ≡ false
  IsFair c x (locked f) = IsLocked f
  IsFair c x (elsewhere w sent) = count (is_exit_of c x) (events_in sent) ≡ 0
  IsFair c x _ = Unit

  abbrev pub acts : Shim World × ExecProcess → List Act → Shim World × ExecProcess
  acts r [] = r
  acts r (a ∷ rest) = acts (act r a) rest

  abbrev pub AllFair : String → String → List Act → Type 0
  AllFair c x [] = Unit
  AllFair c x (a ∷ rest) = IsFair c x a × AllFair c x rest

  abbrev pub HasIds : String → String → ExecProcess → Type 0
  HasIds c x p = (p.container_id ≡ c) × (p.exec_id ≡ x)

  act-IsOnce :
      (s : Shim World) (p : ExecProcess) (a : Act)
      → IsFair p.container_id p.exec_id a
      → IsOnce o (s, p)
      → IsOnce o (act (s, p) a)
  unfolding act
  act-IsOnce s p (observes_state st) f h = set_state_exec-IsOnce o s p st h
  act-IsOnce s p loads f h = load_state_exec-IsOnce o s p h
  act-IsOnce s p loads_exit f h = load_exit_state_exec-IsOnce o s p h
  act-IsOnce s p (publishes e) f (h, whole) =
      let (sum, phase) = publish-count o (is_exit_of p.container_id p.exec_id) s p.process e in
      let none_new : one_if (is_exit_of p.container_id p.exec_id) e ≡ 0 = rw f refl in
      let later = ap past phase in
      (
        omega (arith, h, sum, none_new, later),
        λ x. (let told_once = whole (sym phase ∙ x) in omega (arith, told_once, sum, none_new)),
      )
  act-IsOnce s p (locked g) f (h, whole) =
      let (later, same, before) = f p.process in
      (rw same (omega (arith, h, later)), λ x. rw same (whole (before x)))
  act-IsOnce s p (elsewhere w sent) f (h, whole) =
      let test = is_exit_of p.container_id p.exec_id in
      let sum = count-append test (events_in s.channel) (events_in sent) in
      rw (events_in-append s.channel sent) (
        omega (arith, f, h, sum),
        λ x. (let told_once = whole x in omega (arith, f, told_once, sum)),
      )

  set_state_exec-ids :
      (c x : String) (s : Shim World) (p : ExecProcess) (st : PState)
      → HasIds c x p
      → let (s', p', merged) = set_state_exec o s p st in HasIds c x p'
  unfolding set_state_exec
  set_state_exec-ids c x s p st h = ground (arith, h.0, h.1)

  act-ids :
      (c x : String) (s : Shim World) (p : ExecProcess) (a : Act)
      → HasIds c x p
      → HasIds c x (act (s, p) a).1
  unfolding act load_state_exec load_exit_state_exec
  act-ids c x s p (observes_state st) h = set_state_exec-ids c x s p st h
  act-ids c x s p loads h =
      let (file, w) = read_state_file s.world (exec_exit_status p.bundle p.exec_id) in
      elim (Option-cases file) [
        | inl e ↦ ground (arith, e, h.0, h.1)
        | inr (st, e) ↦ ground (arith, e, set_state_exec-ids c x (record s { world = w }) p st h)
      ]
  act-ids c x s p loads_exit h =
      let (recorded, has) = load_recorded_systemd_exit_state p.process in
      let (props, w) = get_all s.world (exec_name p) in
      let first = set_state_exec-ids c x s p recorded h in
      elim (Option-cases (load_exit_from_unit (now w) props)) [
        | inl e ↦ ground (arith, e, h.0, h.1, first)
        | inr (st, e) ↦
            ground (arith, e, first, set_state_exec-ids c x (record s { world = w }) p st h)
      ]
  act-ids c x s p (publishes e) h = h
  act-ids c x s p (locked f) h = h
  act-ids c x s p (elsewhere w sent) h = h

  acts-IsOnce :
      (c x : String) (s : Shim World) (p : ExecProcess) (todo : List Act)
      → HasIds c x p
      → AllFair c x todo
      → IsOnce o (s, p)
      → IsOnce o (acts (s, p) todo) × HasIds c x (acts (s, p) todo).1
  acts-IsOnce c x s p [] ids f h = (h, ids)
  acts-IsOnce c x s p (a ∷ rest) ids (fair, f) h =
      let r = act (s, p) a in
      let fair' : IsFair p.container_id p.exec_id a = rw (ids.0, ids.1) fair in
      acts-IsOnce c x r.0 r.1 rest (act-ids c x s p a ids) f (act-IsOnce s p a fair' h)

  -- Whatever systemd and the create helper say of an exec, however often, and whichever sends fail:
  -- from a registered exec that has not exited, with nothing told of it, on, containerd is told of its
  -- exit at most once, counting what the outbox still holds, and exactly once when the exec is in the
  -- phase exited. Only the exec's own `SetState` may make exit events of it.
  pub acts-told_once :
      (s : Shim World) (p : ExecProcess) (todo : List Act)
      → p.process.phase ≢ exited
      → told o s p ≡ 0
      → AllFair p.container_id p.exec_id todo
      → let (s', p') = acts (s, p) todo in
        (told o s' p' ≤ 1) × (p'.process.phase ≡ exited → told o s' p' ≡ 1)
  acts-told_once s p todo live none_yet f =
      let (s', p') = acts (s, p) todo in
      let ((most, whole), ids) =
        acts-IsOnce p.container_id p.exec_id s p todo (refl, refl) f
          (omega (arith, none_yet), λ x. absurd (live x)) in
      (omega (arith, most, past-le_one p'.process.phase), whole)

  step_of :
      (p q : Process) (st : Step p q)
      → exits_by st ≡ 0
      → q.events ≡ p.events
      → (past p.phase ≤ past q.phase)
        × (q.events ≡ p.events)
        × (q.phase ≡ exited → p.phase ≡ exited)
  step_of p q st none_by same =
      let (least, once, gone) = Step-count p q st in
      (
        omega (arith, least),
        same,
        λ x. (let whole : past p.phase ≡ 1 = omega (arith, none_by, once x) in ground arith),
      )

  -- The methods under the lock that are not an observation.
  pub methods-IsLocked :
      (pid : ℕ) (st : PState)
      → IsLocked (λ p. (begin_start p).0)
        × IsLocked abort_start
        × IsLocked (λ p. (advance p running).0)
        × IsLocked (λ p. (advance p deleted).0)
        × IsLocked (λ p. record_systemd_exit_state p st)
        × IsLocked clear_recorded_systemd_exit_state
        × IsLocked mark_deleting
        × IsLocked (λ p. set_pid p pid)
  unfolding begin_start abort_start advance record_systemd_exit_state
      clear_recorded_systemd_exit_state mark_deleting set_pid
  methods-IsLocked pid st = (
    λ p. step_of p (begin_start p).0 (begins refl) refl (ground arith),
    λ p. step_of p (abort_start p) (aborts refl) refl (ground arith),
    λ p. step_of p (advance p running).0 (finishes refl) refl (ground arith),
    λ p. step_of p (advance p deleted).0 (deletes refl) refl (ground arith),
    λ p. step_of p (record_systemd_exit_state p st) (records st refl) refl (ground arith),
    λ p. step_of p (clear_recorded_systemd_exit_state p) (clears refl) refl (ground arith),
    λ p. step_of p (mark_deleting p) (marks refl) refl (ground arith),
    λ p. step_of p (set_pid p pid) (sets_pid pid refl) refl (ground arith),
  )
