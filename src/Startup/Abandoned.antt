-- ===== src/Startup/Abandoned.antt =====
-- start.go: a whole start of an exec that a delete races.
use containerd_shim_systemd.Prelude.{
  ℕ, ◌≡◌, refl, ap, ◌∙◌, inl, inr, true, false, String, none, arith, Bool-cases, Option-cases,
  str_eq,
}
use containerd_shim_systemd.State.{has_started}
use containerd_shim_systemd.Phase.{can_become}
use containerd_shim_systemd.Process.{Process, begin_start, abort_start, advance, process_state}
use containerd_shim_systemd.Outside.{Outside, Call, starts, resets, stops, kills}
use containerd_shim_systemd.Task.{ExecProcess, InitProcess, exec_name, Shim, load_state_init}
use containerd_shim_systemd.Task.Calls.{load_state_init-calls}
use containerd_shim_systemd.Pty.Unit.{tty_unit_name, start_tty_unit, tty_fails, await_tty, make_pty}
use containerd_shim_systemd.Teardown.{Outcome, failed_precondition, called, kill, reset_failed_unit}
use containerd_shim_systemd.Startup.{
  is_ok, is_error, run_exec, start_ends, start_exec_started, start_exec,
}
use containerd_shim_systemd.Startup.Raced.{
  Reference, no_reference, is_held, held_by, held_after, held_after-append, run_exec-held,
}

module _ (o : Outside) where
  open o use {World, pinned, start_transient, job_result, stop_unit, kill_unit, reset_failed}

  -- The same reference after the calls of two states.
  abbrev SameHeld : String → Reference → Shim World → Shim World → Type 0
  SameHeld n x s t = held_after n x t.calls ≡ held_after n x s.calls

  called-SameHeld :
      (n : String) (x : Reference) (s : Shim World) (c : Call) (w : World)
      → ((y : Reference) → held_by n y c ≡ y)
      → SameHeld n x s (called s c w)
  called-SameHeld n x s c w h = held_after-append n x s.calls c ∙ h (held_after n x s.calls)

  tty_starts :
      (n : String) (x : Reference) (s : Shim World) (tty : String)
      → SameHeld n x s (start_tty_unit o s tty).0
  unfolding start_tty_unit
  tty_starts n x s tty =
      called-SameHeld n x s (starts tty false) (start_transient s.world tty false).1
        (λ y. ground arith)

  tty_ends :
      (n : String) (x : Reference) (s : Shim World) (tty : String)
      → SameHeld n x s (tty_fails o s tty).0
  unfolding tty_fails
  tty_ends n x s tty = called-SameHeld n x s (stops tty) (stop_unit s.world tty).1 (λ y. refl)

  tty_resets :
      (n : String) (x : Reference) (s : Shim World) (tty : String)
      → SameHeld n x s (reset_failed_unit o s tty).0
  unfolding reset_failed_unit
  tty_resets n x s tty = called-SameHeld n x s (resets tty) (reset_failed s.world tty).1 (λ y. refl)

  tty_awaits :
      (n : String) (x : Reference) (s : Shim World) (tty : String)
      → SameHeld n x s (await_tty o s tty).0
  unfolding await_tty
  tty_awaits n x s tty =
      let (status, w) = job_result s.world tty in
      elim (Option-cases status) [
        | inl e ↦ rw (e, await_tty) refl
        | inr (text, e) ↦ elim (Bool-cases (str_eq text "done")) [
          | inl done ↦ rw (e, done, await_tty) refl
          | inr other ↦ rw (e, other, await_tty) (tty_ends n x (record s { world = w }) tty)
        ]
      ]

  make_pty-SameHeld :
      (n : String) (x : Reference) (s : Shim World) (p : Process)
      → SameHeld n x s (make_pty o s p).0
  unfolding make_pty
  make_pty-SameHeld n x s p =
      let tty = tty_unit_name p in
      let (s1, began) = start_tty_unit o s tty in
      let (s2, reset) = reset_failed_unit o s1 tty in
      let (s3, again) = start_tty_unit o s2 tty in
      let to_s1 = tty_starts n x s tty in
      let to_s2 = tty_resets n x s1 tty ∙ to_s1 in
      let to_s3 = tty_starts n x s2 tty ∙ to_s2 in
      elim (Bool-cases began) [
        | inl a ↦ rw (a, make_pty) (tty_awaits n x s1 tty ∙ to_s1)
        | inr a ↦ elim (Bool-cases reset) [
          | inr b ↦ rw (a, b, make_pty) (tty_ends n x s2 tty ∙ to_s2)
          | inl b ↦ elim (Bool-cases again) [
            | inl c ↦ rw (a, b, c, make_pty) (tty_awaits n x s3 tty ∙ to_s3)
            | inr c ↦ rw (a, b, c, make_pty) (tty_ends n x s3 tty ∙ to_s3)
          ]
        ]
      ]

  -- What is expected of a start: no reference is held, and no process id is returned.
  abbrev IsGivenUp : String → Reference → Shim World → Outcome ℕ → Type 0
  IsGivenUp n x s out = (is_held (held_after n x s.calls) ≡ false) × (is_ok out ≡ false)

  start_exec_started-IsGivenUp :
      (others : Process → Process) (s : Shim World) (p : ExecProcess) (x : Reference)
      → pinned ≡ true
      → is_held (held_after (exec_name p) x s.calls) ≡ false
      → let (s', p', out) = start_exec_started o others s p in
        p'.process.deleting ≡ true → IsGivenUp (exec_name p) x s' out
  unfolding start_exec_started kill
  start_exec_started-IsGivenUp others s p x h none_yet d =
      let n = exec_name p in
      let tty = tty_unit_name p.process in
      let (s1, made) = make_pty o s p.process in
      let (s2, q, out) = run_exec o others s1 p in
      let before = ap is_held (make_pty-SameHeld n x s p.process) ∙ none_yet in
      let after_kill =
        ap is_held (called-SameHeld n x s2 (kills tty) (kill_unit s2.world tty) (λ y. refl)) in
      elim (Bool-cases p.process.terminal) [
        | inr a ↦
            let d' = simp (a, start_exec_started) at d in
            simp (a, start_exec_started) (run_exec-held o others s p x h d')
        | inl a ↦ elim (Bool-cases made) [
          | inr b ↦ simp (a, b, start_exec_started) (before, refl)
          | inl b ↦
              let d' : q.process.deleting ≡ true = simp (a, b, start_exec_started) at d in
              let (free, no_pid) = run_exec-held o others s1 p x h d' in
              elim (Bool-cases (is_error out)) [
                | inl e ↦ simp (a, b, e, start_exec_started) (after_kill ∙ free, no_pid)
                | inr e ↦ simp (a, b, e, start_exec_started) (free, no_pid)
              ]
        ]
      ]

  start_ends-IsGivenUp :
      (n : String) (x : Reference) (s : Shim World) (p : ExecProcess) (out : Outcome ℕ)
      → (p.process.deleting ≡ true → IsGivenUp n x s out)
      → let (s', p', out') = start_ends o s p out in
        p'.process.deleting ≡ true → IsGivenUp n x s' out'
  unfolding start_ends abort_start advance can_become
  start_ends-IsGivenUp n x s p out h d = elim (Bool-cases (is_error out)) [
    | inl e ↦ rw (e, start_ends) (h (ground (arith, d)))
    | inr e ↦ rw (e, start_ends) (h (ground (arith, d)))
  ]

  begun-name :
      (p : ExecProcess) → exec_name (record p { process = (begin_start p.process).0 }) ≡ exec_name p
  unfolding exec_name begin_start advance can_become
  begun-name p = ground arith

  -- With a message bus, a `Start` of an exec that is granted and ends with the exec marked for deletion,
  -- by another goroutine, returns no process id, whatever has failed; and if the shim held no reference
  -- to the unit before, it holds none after but one whose release was asked for and failed.
  pub start_exec-held :
      (others : Process → Process) (s : Shim World) (parent : InitProcess) (p : ExecProcess)
      → pinned ≡ true
      → (begin_start p.process).1 ≡ none
      → is_held (held_after (exec_name p) no_reference s.calls) ≡ false
      → let (s', parent', p', out) = start_exec o others s parent p in
        p'.process.deleting ≡ true
        → (is_held (held_after (exec_name p) no_reference s'.calls) ≡ false) × (is_ok out ≡ false)
  unfolding start_exec
  start_exec-held others s parent p h granted free d =
      let q = record p { process = (begin_start p.process).0 } in
      let n = exec_name p in
      let name = begun-name p in
      let (s', parent', loaded) = load_state_init o s parent in
      let same : is_held (held_after n no_reference s'.calls) ≡ false =
        rw (load_state_init-calls o s parent) free in
      let run : (t : Shim World)
          → is_held (held_after n no_reference t.calls) ≡ false
          → (start_exec_started o others t q).1.process.deleting ≡ true
          → IsGivenUp n no_reference (start_exec_started o others t q).0
              (start_exec_started o others t q).2 =
        λ t f. rw (← name) (start_exec_started-IsGivenUp others t q no_reference h (rw name f)) in
      let r1 = start_exec_started o others s q in
      let r2 = start_exec_started o others s' q in
      elim (Bool-cases (has_started (process_state parent.process))) [
        | inl a ↦
            rw (granted, a, start_exec)
              (start_ends-IsGivenUp n no_reference r1.0 r1.1 r1.2 (run s free)
                (rw (granted, a, start_exec) at d))
        | inr a ↦ elim (Bool-cases (has_started (process_state parent'.process))) [
          | inl b ↦
              rw (granted, a, b, start_exec)
                (start_ends-IsGivenUp n no_reference r2.0 r2.1 r2.2 (run s' same)
                  (rw (granted, a, b, start_exec) at d))
          | inr b ↦
              rw (granted, a, b, start_exec)
                (start_ends-IsGivenUp n no_reference s' q failed_precondition (λ _. (same, refl))
                  (rw (granted, a, b, start_exec) at d))
        ]
      ]
