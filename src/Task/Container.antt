-- ===== src/Task/Container.antt =====
-- process.go and state.go: the exit of a container, which ends its execs too.
use containerd_shim_systemd.Prelude.{
  ℕ, ◌+◌, ◌≤◌, ◌≡◌, refl, ap, ◌∙◌, inl, inr, Bool, false, ◌&&◌, not, String, List, [], ◌∷◌, arith,
  str_eq, Option-cases, Bool-cases,
}
use containerd_shim_systemd.Phase.{phase_lt, running}
use containerd_shim_systemd.State.{PState, has_exited}
use containerd_shim_systemd.State.Status.{exited_init}
use containerd_shim_systemd.Outbox.{Event, task_exit}
use containerd_shim_systemd.Outbox.Count.{count, one_if}
use containerd_shim_systemd.Process.{Process, apply_state, just_exited, was_running, process_state}
use containerd_shim_systemd.Process.Lifecycle.{apply_state_lem}
use containerd_shim_systemd.Process.Exit.{past, apply_state-count}
use containerd_shim_systemd.Outside.{Outside, exec_exit_status}
use containerd_shim_systemd.Task.{
  ExecProcess, InitProcess, Shim, reaped, set_state_exec, load_state_exec, reap_exec, reap_execs,
  kill_children, finish_exit, set_state_init,
}
use containerd_shim_systemd.Task.Once.{events_in, publish-count, publish-grows}

module _ (o : Outside) (test : Event → Bool) where
  open o use {World, now, read_state_file}

  -- An exec none of whose events passes the test.
  abbrev pub IsQuiet : ExecProcess → Type 0
  IsQuiet e =
      (count test e.process.events.held ≡ 0)
      × ((code at pid : ℕ) → test (task_exit e.container_id e.exec_id code at pid) ≡ false)

  abbrev pub AllQuiet : List (String × ExecProcess) → Type 0
  AllQuiet [] = Unit
  AllQuiet ((k, e) ∷ es) = IsQuiet e × AllQuiet es

  -- The same events that pass the test are in the channel as before.
  abbrev pub AsMany : Shim World → Shim World → Type 0
  AsMany s s' = count test (events_in s'.channel) ≡ count test (events_in s.channel)

  set_state_exec-IsQuiet :
      (s : Shim World) (e : ExecProcess) (st : PState)
      → IsQuiet e
      → let (s', e', merged) = set_state_exec o s e st in AsMany s s' × IsQuiet e'
  unfolding set_state_exec
  set_state_exec-IsQuiet s e st (none_held, other) =
      let (q, u) = apply_state (now s.world) e.process st in
      let exit =
        task_exit e.container_id e.exec_id u.state.exit_code u.state.exited_at u.state.pid in
      let same = ap (λ (r : Process). r.events) (apply_state_lem (now s.world) e.process st) in
      let held : count test q.events.held ≡ 0 = rw same none_held in
      let mine : one_if test exit ≡ 0 =
        rw (other u.state.exit_code u.state.exited_at u.state.pid) refl in
      let (sum, phase) = publish-count o test s q exit in
      let grows = publish-grows o test s q exit in
      elim (Bool-cases (just_exited u)) [
        | inl ends ↦
            rw (ends, set_state_exec)
              (
                omega (arith, sum, grows, held, mine),
                (omega (arith, sum, grows, held, mine), other),
              )
        | inr no_end ↦ rw (no_end, set_state_exec) (refl, (held, other))
      ]

  load_state_exec-IsQuiet :
      (s : Shim World) (e : ExecProcess)
      → IsQuiet e
      → let (s', e') = load_state_exec o s e in AsMany s s' × IsQuiet e'
  unfolding load_state_exec
  load_state_exec-IsQuiet s e h =
      let (file, w) = read_state_file s.world (exec_exit_status e.bundle e.exec_id) in
      elim (Option-cases file) [
        | inl no_file ↦ rw (no_file, load_state_exec) (refl, h)
        | inr (st, found) ↦
            rw (found, load_state_exec) (set_state_exec-IsQuiet (record s { world = w }) e st h)
      ]

  reap_exec-IsQuiet :
      (s : Shim World) (e : ExecProcess)
      → IsQuiet e
      → let (s', e') = reap_exec o s e in AsMany s s' × IsQuiet e'
  unfolding reap_exec
  reap_exec-IsQuiet s e h =
      let (s', e') = load_state_exec o s e in
      let (same, quiet) = load_state_exec-IsQuiet s e h in
      let (same', quiet') = set_state_exec-IsQuiet s' e' (reaped (now s'.world)) quiet in
      elim (Bool-cases (phase_lt e'.process.phase running)) [
        | inl a ↦ rw (a, reap_exec) (same, quiet)
        | inr a ↦ elim (Bool-cases (has_exited (process_state e'.process))) [
          | inl b ↦ rw (a, b, reap_exec) (same, quiet)
          | inr b ↦ rw (a, b, reap_exec) (same' ∙ same, quiet')
        ]
      ]

  reap_execs-AllQuiet :
      (s : Shim World) (es : List (String × ExecProcess))
      → AllQuiet es
      → let (s', es') = reap_execs o s es in AsMany s s' × AllQuiet es'
  unfolding reap_execs
  reap_execs-AllQuiet s [] h = (refl, tt)
  reap_execs-AllQuiet s ((k, e) ∷ es) (quiet, h) =
      let (s', e') = reap_exec o s e in
      let (same, quiet') = reap_exec-IsQuiet s e quiet in
      let (same', h') = reap_execs-AllQuiet s' es h in (same' ∙ same, (quiet', h'))

  -- The events of a container that pass the test and are published or held.
  abbrev pub told_init : Shim World → InitProcess → ℕ
  told_init s p = count test (events_in s.channel) + count test p.process.events.held

  finish_exit-count :
      (s : Shim World) (p : InitProcess) (st : PState) (kill : Bool)
      → AllQuiet p.execs
      → let (s', q) = finish_exit o s p st kill in
        (told_init s' q ≤ told_init s p + 1)
        × (q.process.phase ≡ p.process.phase)
        × AllQuiet q.execs
  unfolding finish_exit kill_children
  finish_exit-count s p st kill h =
      let killed = kill_children o s p kill in
      let (s', execs) = reap_execs o killed p.execs in
      let exit = task_exit p.process.id p.process.id st.exit_code st.exited_at st.pid in
      let none_killed : AsMany s killed = ground arith in
      let (same, quiet) = reap_execs-AllQuiet killed p.execs h in
      let (sum, phase) = publish-count o test s' p.process exit in
      let at_most : one_if test exit ≤ 1 = ground arith in
      elim (Bool-cases (str_eq st.status exited_init)) [
        | inl never ↦ rw (never, finish_exit) (omega (arith, none_killed, same), refl, quiet)
        | inr ran ↦
            rw (ran, finish_exit) (omega (arith, none_killed, same, sum, at_most), phase, quiet)
      ]

  -- The exits of a container against its phase; its execs make none of them.
  abbrev pub IsOnceInit : Shim World × InitProcess → Type 0
  IsOnceInit (s, p) = (told_init s p ≤ past p.process.phase) × AllQuiet p.execs

  pub set_state_init-IsOnceInit :
      (s : Shim World) (p : InitProcess) (st : PState)
      → IsOnceInit (s, p)
      → let (s', p', merged) = set_state_init o s p st in IsOnceInit (s', p')
  unfolding set_state_init
  set_state_init-IsOnceInit s p st (h, quiet) =
      let (q, u) = apply_state (now s.world) p.process st in
      let kill = not (str_eq u.state.status exited_init) && (was_running u && p.kill_all_on_exit) in
      let p' = record p { process = q } in
      let same = ap (λ (r : Process). r.events) (apply_state_lem (now s.world) p.process st) in
      let kept : told_init s p' ≡ told_init s p = rw same refl in
      let (sum, phase, quiet') = finish_exit-count s p' u.state kill quiet in
      let (exits, gone) = apply_state-count (now s.world) p.process st in
      elim (Bool-cases (just_exited u)) [
        | inl ends ↦
            let once : 1 + past p.process.phase ≡ past q.phase = rw ends at exits in
            let ended = (finish_exit o s p' u.state kill).1.process.phase in
            let past_same : past ended ≡ past q.phase = ap past phase in
            rw (ends, set_state_init) (omega (arith, h, kept, sum, once, past_same), quiet')
        | inr no_end ↦
            let stays : 0 + past p.process.phase ≡ past q.phase = rw no_end at exits in
            rw (no_end, set_state_init) (omega (arith, h, kept, stays), quiet)
      ]
