-- ===== src/Task/Once.antt =====
-- process.go and state.go: the exit of an exec, from what systemd and the create helper say up to the
-- service's channel of events.
use containerd_shim_systemd.Prelude.{
  ℕ, ◌+◌, ◌≤◌, ◌≡◌, refl, ap, ◌∙◌, inl, inr, Bool, Bool-cases, false, ◌&&◌, String, List, [], ◌∷◌,
  ◌++◌, map, arith, str_eq, str_eq_refl, Option-cases,
}
use containerd_shim_systemd.Phase.{ProcPhase, exited, deleted}
use containerd_shim_systemd.State.{PState}
use containerd_shim_systemd.State.Unit.{load_exit_from_unit}
use containerd_shim_systemd.Outbox.{Event, task_exit, send_event}
use containerd_shim_systemd.Outbox.Count.{count, one_if, count-append, send_event-count}
use containerd_shim_systemd.Process.{
  Process, load_recorded_systemd_exit_state, apply_state, just_exited,
}
use containerd_shim_systemd.Process.Lifecycle.{apply_state_lem}
use containerd_shim_systemd.Process.Exit.{past, past-le_one, apply_state-count}
use containerd_shim_systemd.Outside.{Outside, exec_exit_status}
use containerd_shim_systemd.Task.{
  ExecProcess, Shim, exec_name, publish, set_state_exec, load_state_exec, load_exit_state_exec,
}

-- The exit event of an exec of a container.
abbrev pub is_exit_of : String → String → Event → Bool
is_exit_of c x (task_exit container_id id s t p) = str_eq container_id c && str_eq id x
is_exit_of c x _ = false

-- The events of the channel, without their namespaces.
abbrev pub events_in : List (String × Event) → List Event
events_in [] = []
events_in ((ns, e) ∷ es) = e ∷ events_in es

pub events_in-append :
    (es fs : List (String × Event)) → events_in (es ++ fs) ≡ events_in es ++ events_in fs
events_in-append [] fs = refl
events_in-append ((ns, e) ∷ es) fs = ap (λ l. e ∷ l) (events_in-append es fs)

events_in-map : (ns : String) (es : List Event) → events_in (map (λ e. (ns, e)) es) ≡ es
events_in-map ns [] = refl
events_in-map ns (e ∷ es) = ap (λ l. e ∷ l) (events_in-map ns es)

module _ (o : Outside) where
  open o use {World, send, now, read_state_file, get_all}

  -- The exits of an exec that containerd was told of, or will be told of from its outbox.
  abbrev pub told : Shim World → ExecProcess → ℕ
  told s p =
      let test = is_exit_of p.container_id p.exec_id in
      count test (events_in s.channel) + count test p.process.events.held

  pub publish-count :
      (test : Event → Bool) (s : Shim World) (p : Process) (e : Event)
      → let (s', p') = publish o s p e in
        (count test (events_in s'.channel) + count test p'.events.held
          ≡ count test (events_in s.channel) + count test p.events.held + one_if test e)
        × (p'.phase ≡ p.phase)
  unfolding publish
  publish-count test s p e =
      let r = send_event send p.events e s.world in
      let sent = map (λ e. (p.events.ns, e)) r.published in
      let here : count test (events_in (s.channel ++ sent))
          ≡ count test (events_in s.channel) + count test r.published =
        ap (count test) (events_in-append s.channel sent)
        ∙ (count-append test (events_in s.channel) (events_in sent)
            ∙ ap (λ l. count test (events_in s.channel) + count test l)
                (events_in-map p.events.ns r.published)) in
      (omega (arith, here, send_event-count test send p.events e s.world), refl)

  pub publish-grows :
      (test : Event → Bool) (s : Shim World) (p : Process) (e : Event)
      → count test (events_in s.channel) ≤ count test (events_in (publish o s p e).0.channel)
  unfolding publish
  publish-grows test s p e =
      let r = send_event send p.events e s.world in
      let sent : List (String × Event) = map (λ f. (p.events.ns, f)) r.published in
      rw (events_in-append s.channel sent)
        (omega (arith, count-append test (events_in s.channel) (events_in sent)))

  -- The exits of an exec against its phase: containerd is told at most once, only of one that has
  -- ended, and always of one that has exited and is not deleted.
  abbrev pub IsOnce : Shim World × ExecProcess → Type 0
  IsOnce (s, p) = (told s p ≤ past p.process.phase) × (p.process.phase ≡ exited → told s p ≡ 1)

  was_exited :
      (p q : ProcPhase)
      → 0 + past p ≡ past q
      → (p ≡ deleted → q ≡ deleted)
      → q ≡ exited
      → p ≡ exited
  was_exited p q h g e = ground arith

  pub set_state_exec-IsOnce :
      (s : Shim World) (p : ExecProcess) (st : PState)
      → IsOnce (s, p)
      → let (s', p', merged) = set_state_exec o s p st in IsOnce (s', p')
  unfolding set_state_exec
  set_state_exec-IsOnce s p st (h, whole) =
      let (q, u) = apply_state (now s.world) p.process st in
      let exit =
        task_exit p.container_id p.exec_id u.state.exit_code u.state.exited_at u.state.pid in
      let test = is_exit_of p.container_id p.exec_id in
      let same = ap (λ (r : Process). r.events) (apply_state_lem (now s.world) p.process st) in
      let kept : told s (record p { process = q }) ≡ told s p = rw same refl in
      let mine : one_if test exit ≡ 1 =
        rw (str_eq_refl p.container_id, str_eq_refl p.exec_id) refl in
      let (sum, phase) = publish-count test s q exit in
      let (exits, gone) = apply_state-count (now s.world) p.process st in
      let most = past-le_one q.phase in
      elim (Bool-cases (just_exited u)) [
        | inl ends ↦
            let once : 1 + past p.process.phase ≡ past q.phase = rw ends at exits in
            let later = ap past phase in
            rw (ends, set_state_exec)
              (
                omega (arith, h, kept, mine, sum, once, later, most),
                λ _. omega (arith, h, kept, mine, sum, once, later, most),
              )
        | inr no_end ↦
            let stays : 0 + past p.process.phase ≡ past q.phase = rw no_end at exits in
            rw (no_end, set_state_exec)
              (
                omega (arith, h, kept, stays),
                λ e. kept ∙ whole (was_exited p.process.phase q.phase stays gone e),
              )
      ]

  pub load_state_exec-IsOnce :
      (s : Shim World) (p : ExecProcess) → IsOnce (s, p) → IsOnce (load_state_exec o s p)
  unfolding load_state_exec
  load_state_exec-IsOnce s p h =
      let (file, w) = read_state_file s.world (exec_exit_status p.bundle p.exec_id) in
      let s' = record s { world = w } in
      elim (Option-cases file) [
        | inl e ↦ rw (e, load_state_exec) h
        | inr (st, e) ↦ rw (e, load_state_exec) (set_state_exec-IsOnce s' p st h)
      ]

  pub load_exit_state_exec-IsOnce :
      (s : Shim World) (p : ExecProcess)
      → IsOnce (s, p)
      → let (s', p', ok) = load_exit_state_exec o s p in IsOnce (s', p')
  unfolding load_exit_state_exec
  load_exit_state_exec-IsOnce s p h =
      let (recorded, has) = load_recorded_systemd_exit_state p.process in
      let (props, w) = get_all s.world (exec_name p) in
      let s' = record s { world = w } in
      elim (Bool-cases has) [
        | inl told ↦ rw (told, load_exit_state_exec) (set_state_exec-IsOnce s p recorded h)
        | inr untold ↦ elim (Option-cases (load_exit_from_unit (now w) props)) [
          | inl e ↦ rw (untold, e, load_exit_state_exec) h
          | inr (st, e) ↦ rw (untold, e, load_exit_state_exec) (set_state_exec-IsOnce s' p st h)
        ]
      ]
