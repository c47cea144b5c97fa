-- ===== src/Startup/Raced.antt =====
-- start.go: a start that a delete races.
use containerd_shim_systemd.Prelude.{
  ℕ, ◌≡◌, refl, ap, inl, inr, Bool, true, false, ◌&&◌, ◌∙◌, String, List, [], ◌∷◌, ◌++◌, arith,
  Bool-cases, if◌then◌else◌, str_eq, str_eq_refl,
}
use containerd_shim_systemd.Process.{Process, clear_recorded_systemd_exit_state}
use containerd_shim_systemd.Outside.{Outside, Call, starts, resets, unrefs}
use containerd_shim_systemd.Task.{ExecProcess, exec_name, Shim}
use containerd_shim_systemd.Teardown.{
  Outcome, ok, failed_precondition, failed, blocked, release_unit, stop_and_kill, reset_failed_unit,
  found_as,
}
use containerd_shim_systemd.Startup.{
  is_ok, abandon_started_unit, start_exec_unit, start_exec_job, start_exec_pid, unless_deleting,
  run_exec,
}

-- The reference to a unit, by the calls: not taken, or given back; taken, where a start that fails may
-- have taken it; or one whose release failed, which nothing gives back.
pub data Reference : Type 0 where
  no_reference held unreleased : Reference

abbrev pub is_held : Reference → Bool
is_held held = true
is_held _ = false

abbrev pub held_by : String → Reference → Call → Reference
held_by n x (starts name add_ref) = if str_eq name n && add_ref then held else x
held_by n x (unrefs name released) =
    if str_eq name n then (if released then no_reference else unreleased) else x
held_by n x _ = x

-- The shim's reference to the unit after some calls.
abbrev pub held_after : String → Reference → List Call → Reference
held_after n x [] = x
held_after n x (c ∷ cs) = held_after n (held_by n x c) cs

pub held_after-append :
    (n : String) (x : Reference) (cs : List Call) (c : Call)
    → held_after n x (cs ++ c ∷ []) ≡ held_by n (held_after n x cs) c
held_after-append n x [] c = refl
held_after-append n x (d ∷ cs) c = held_after-append n (held_by n x d) cs c

refused-not_ok : (out : Outcome ℕ) → is_ok (if is_ok out then failed_precondition else out) ≡ false
refused-not_ok (ok n) = refl
refused-not_ok failed_precondition = refl
refused-not_ok failed = refl
refused-not_ok blocked = refl

module _ (o : Outside) where
  open o use {World, pinned, unref_unit}

  pub release-held :
      (s : Shim World) (name : String) (x : Reference)
      → pinned ≡ true
      → is_held (held_after name x (release_unit o s name).calls) ≡ false
  unfolding release_unit
  release-held s name x h =
      let released = (unref_unit s.world name).0 in
      let after = held_after-append name x s.calls (unrefs name released) in
      rw (h, release_unit, after) (ground (arith, str_eq_refl name))

  abandoned-held :
      (s : Shim World) (name : String) (x : Reference)
      → pinned ≡ true
      → is_held (held_after name x (abandon_started_unit o s name).calls) ≡ false
  unfolding abandon_started_unit reset_failed_unit
  abandoned-held s name x h =
      let t = release_unit o (stop_and_kill o s name) name in
      ap is_held (held_after-append name x t.calls (resets name))
      ∙ release-held (stop_and_kill o s name) name x h

  pub unless_deleting-held :
      (s : Shim World) (p : Process) (name : String) (out : Outcome ℕ) (x : Reference)
      → pinned ≡ true
      → p.deleting ≡ true
      → let r = unless_deleting o s p name out in
        (is_held (held_after name x r.0.calls) ≡ false) × (is_ok r.1 ≡ false)
  unfolding unless_deleting
  unless_deleting-held s p name out x h d =
      rw (d, unless_deleting) (abandoned-held s name x h, refused-not_ok out)

  pub run_exec-held :
      (others : Process → Process) (s : Shim World) (p : ExecProcess) (x : Reference)
      → pinned ≡ true
      → (run_exec o others s p).1.process.deleting ≡ true
      → let r = run_exec o others s p in
        (is_held (held_after (exec_name p) x r.0.calls) ≡ false) × (is_ok r.2 ≡ false)
  unfolding run_exec
  run_exec-held others s p x h d =
      let cleared = clear_recorded_systemd_exit_state p.process in
      let (s', began) = start_exec_unit o s (exec_name p) in
      let q = record p { process = found_as p.process (others cleared) } in
      let (s'', q', goes_on) = start_exec_job o s' q in
      let (s3, q'', out) = start_exec_pid o s'' q' in
      elim (Bool-cases began) [
        | inr e ↦
            let d' : q.process.deleting ≡ true = rw (e, run_exec) at d in
            rw (e, run_exec) (unless_deleting-held s' q.process (exec_name p) failed x h d')
        | inl e ↦ elim (Bool-cases goes_on) [
          | inr stops_here ↦
              let d' : q'.process.deleting ≡ true = rw (e, stops_here, run_exec) at d in
              rw (e, stops_here, run_exec)
                (unless_deleting-held s'' q'.process (exec_name p) failed x h d')
          | inl on ↦
              let d' : q''.process.deleting ≡ true = rw (e, on, run_exec) at d in
              rw (e, on, run_exec) (unless_deleting-held s3 q''.process (exec_name p) out x h d')
        ]
      ]
