-- ===== src/Create/Ended.antt =====
-- create.go: what `createCmd` leaves in the state file, and what it returns.
use containerd_shim_systemd.Prelude.{
  ℕ, ◌+◌, ◌≡◌, refl, sym, subst, ap, inl, inr, Bool, true, false, ◌||◌, ◌==◌, List, [], ◌∷◌, Option,
  none, some, arith,
}
use containerd_shim_systemd.State.{PState, has_exited}
use containerd_shim_systemd.State.Time.{zero_time}
use containerd_shim_systemd.State.Status.{exit_signal_offset, to_status}
use containerd_shim_systemd.Create.Helper.{
  WaitStatus, still_running, exited_with, signalled, workload_state, HelperRun, HelperAct,
  runc_started, notify_workload, look_again, hand_off, after_runc, is_success, create_cmd,
}
use containerd_shim_systemd.Create.Handoff.{
  states_in, has_started, opening_lem, opening-alone, create_cmd_cases,
}

-- What is in the state file at the end.
abbrev pub last_written : List PState → Option PState
last_written [] = none
last_written (st ∷ []) = some st
last_written (st ∷ st' ∷ sts) = last_written (st' ∷ sts)

-- An end of the workload that a look sees.
abbrev pub has_ended : Option WaitStatus → Bool
has_ended none = false
has_ended (some still_running) = false
has_ended (some (exited_with status)) = true
has_ended (some (signalled signal)) = true

-- What a state that the helper writes says of the workload.
ended_state-exited :
    (now code pid : ℕ)
    → has_exited (record { exited_at = now; exit_code = code; pid = pid; status = "exited" }) ≡ true
unfolding has_exited to_status
ended_state-exited now code pid = ground arith

-- The state is the end of a run: terminal, and no success unless its code is 0 or its time is zero.
abbrev IsEnd : PState → Bool × List PState → Type 0
IsEnd st (success, sts) =
    (last_written sts ≡ some st)
    × (has_exited st ≡ true)
    × (success ≡ (st.exit_code == 0 || st.exited_at == zero_time))

abbrev outcome : List HelperAct × PState × Bool → Bool × List PState
outcome (acts, st, ok) = (is_success st ok, states_in acts)

ended-workload :
    (now pid : ℕ) (ws : WaitStatus)
    → has_ended (some ws) ≡ true
    → (st : PState) × (workload_state now pid (some ws) ≡ some st)
      × (has_exited st ≡ true)
      × (st.status ≡ "exited")
unfolding workload_state
ended-workload now pid still_running h = absurd (cc)
ended-workload now pid (exited_with n) h = (_, refl, ended_state-exited now n pid, refl)
ended-workload now pid (signalled n) h =
    (_, refl, ended_state-exited now (exit_signal_offset + n) pid, refl)

look_again-ended :
    (r : HelperRun) (pid : ℕ) (ws : WaitStatus)
    → r.second_look ≡ some ws
    → has_ended (some ws) ≡ true
    → r.second_write ≡ true
    → (st : PState) × (states_in (look_again r pid).0 ≡ st ∷ [])
      × ((look_again r pid).1 ≡ st)
      × ((look_again r pid).2 ≡ true)
      × (has_exited st ≡ true)
unfolding look_again notify_workload
look_again-ended r pid ws l h w =
    let (st, e, ended, status) = ended-workload r.second_time pid ws h in
    (
      st,
      rw (l, e, status, w, look_again, notify_workload) refl,
      rw (l, e, status, w, look_again) refl,
      rw (l, e, status, w, look_again) refl,
      ended,
    )

-- The first look finds the workload ended, or it runs and the second finds it ended.
hand_off-IsEnd :
    (r : HelperRun) (pid : ℕ) (first second : WaitStatus)
    → r.second_look ≡ some second
    → r.first_write ≡ true
    → r.second_write ≡ true
    → (has_ended (some first) || has_ended (some second)) ≡ true
    → (st : PState) × IsEnd st
        (outcome (hand_off r pid (workload_state r.first_time pid (some first))))
unfolding hand_off notify_workload is_success workload_state
hand_off-IsEnd r pid still_running second l w w' h =
    let (st, states, left, ok, ended) = look_again-ended r pid second l h w' in
    (st, (ground (arith, states), ended, ground (arith, left, ok)))
hand_off-IsEnd r pid (exited_with n) second l w w' h =
    let (st, e, ended, status) = ended-workload r.first_time pid (exited_with n) refl in
    (_, (rw w refl, ended_state-exited r.first_time n pid, rw w refl))
hand_off-IsEnd r pid (signalled n) second l w w' h =
    (_, (rw w refl, ended_state-exited r.first_time (exit_signal_offset + n) pid, rw w refl))

-- Where the helper has started runc and runc has worked, the pid file and the looks can be read and
-- the state file written, and one of the two looks finds the workload ended, the state file that is
-- left is terminal, and the helper succeeds only if its code is 0 or its time is Go's zero time.
pub create_cmd-exited :
    (r : HelperRun) (tty : Bool) (pid : ℕ) (first second : WaitStatus)
    → has_started (create_cmd r tty false).0 ≡ true
    → r.runc_failure ≡ none
    → r.pid_file ≡ some pid
    → r.first_look ≡ some first
    → r.second_look ≡ some second
    → r.first_write ≡ true
    → r.second_write ≡ true
    → (has_ended (some first) || has_ended (some second)) ≡ true
    → let (acts, success) = create_cmd r tty false in
      (st : PState) × (last_written (states_in acts) ≡ some st)
      × (has_exited st ≡ true)
      × (success ≡ (st.exit_code == 0 || st.exited_at == zero_time))
unfolding after_runc
create_cmd-exited r tty pid first second started a b c d w w' h =
    let (pre, opens, cases) = create_cmd_cases r tty false in
    let (acts, st, ok) = after_runc r false in
    let (_, _, quiet) = opening-alone pre opens in
    let (states, _, _) = opening_lem pre (runc_started ∷ acts) opens in
    let left : after_runc r false ≡ hand_off r pid (workload_state r.first_time pid (some first)) =
      simp (a, b, c, after_runc) in
    elim cases [
      | inl e ↦ absurd (ground (arith, started, ap (λ x. has_started x.0) e, quiet))
      | inr e ↦
          let (st', end) = hand_off-IsEnd r pid first second d w w' h in
          let (last, ended, result) = subst (λ x. IsEnd st' (outcome x)) (sym left) end in
          (st', rw (e, states) last, ended, rw e result)
    ]
