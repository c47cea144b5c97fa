-- ===== src/Examples/Reactors.antt =====
-- Runs of the event reactor of unitevents.go over the managers of process.go.
use containerd_shim_systemd.Prelude.{
  ℕ, ◌<◌, ◌≡◌, refl, true, false, [], ◌∷◌, none, some, arith, str_eq, if◌then◌else◌, ◌⊎◌, List,
}
use containerd_shim_systemd.State.{PState, has_exited, copy_to}
use containerd_shim_systemd.Prelude.Assoc.{lookup, insert}
use containerd_shim_systemd.State.Unit.{get_unit_state}
use containerd_shim_systemd.State.Time.{unix_micro}
use containerd_shim_systemd.State.Status.{exit_status_for, to_status}
use containerd_shim_systemd.Process.{
  apply_state, just_exited, new_process, process_state, record_systemd_exit_state,
}
use containerd_shim_systemd.Signals.{
  Changed, uint32, int32, uint64, UnitUpdate, service_interface, service_exit_state,
}
use containerd_shim_systemd.WorkQueue.{new_unit_work_queue}
use containerd_shim_systemd.WorkQueue.Progress.{pending}
use containerd_shim_systemd.Task.{
  InitProcess, ExecProcess, Shim, load_state_init, set_state_init, load_init_unit, init_name,
  finish_exit, publish,
}
use containerd_shim_systemd.Reactor.{enqueue_if_exit, reconcile_unit, resync}
use containerd_shim_systemd.Reactor.Signal.{signalled-exited}
use containerd_shim_systemd.Reactor.Loop.{
  Attempt, Moment, takes, signals, refused, attempt, attempts, moment, moments,
}
use containerd_shim_systemd.Reactor.Redialed.{is_handed_in, reconnected-handed}
use containerd_shim_systemd.Registry.{
  init_ref, Registry, get_by_path, state_at, recorded_at, paths, find, pid_at, load_at,
  load_state_tracked, record_exit, record_tracked, put,
}
use containerd_shim_systemd.Registry.Instance.{shim_lookup}
use containerd_shim_systemd.Examples.World.{quiet, all_up}

abbrev init_process : InitProcess
init_process = record {
  process = record (new_process "ns" "c" "unit" false) {
    state = record { exited_at = 0; exit_code = 0; pid = 42; status = "running" };
  };
  bundle = "/run/c";
  checkpoint = "";
  kill_all_on_exit = true;
  execs = [];
}

abbrev tracked : Registry ℕ
tracked = record {
  shim = record { world = 0; channel = []; calls = [] };
  processes = ("ns/c", init_process) ∷ [];
  units = ("unit_c", init_ref "ns/c") ∷ [];
  dropped = [];
}

-- The main process was killed by signal 9.
abbrev killed : Changed
killed name =
    if str_eq name "ExecMainPID"
    then some (uint32 42)
    else if str_eq name "ExecMainStatus"
    then some (int32 9)
    else if str_eq name "ExecMainCode"
    then some (int32 2)
    else if str_eq name "ExecMainExitTimestamp"
    then some (uint64 1700000000000000)
    else none

abbrev exit_update : UnitUpdate
exit_update = record { path_base = "unit_c"; interface_name = service_interface; changed = killed }

-- What the signal says.
abbrev seen : PState
seen = record {
  exited_at = unix_micro 1700000000000000;
  exit_code = exit_status_for 2 9;
  pid = 42;
  status = "exited";
}

found : get_by_path tracked "unit_c" ≡ some (init_ref "ns/c")
unfolding get_by_path lookup find
found = refl

not_exited : has_exited (state_at tracked (init_ref "ns/c")) ≡ false
unfolding state_at lookup find process_state has_exited new_process copy_to to_status
not_exited = refl

tells : service_exit_state exit_update.changed ≡ some seen
unfolding service_exit_state
tells = refl

abbrev noted : Registry ℕ
noted = record_exit tracked (init_ref "ns/c") seen

still_loads : (load_at all_up (load_state_tracked all_up) noted (init_ref "ns/c")).1 ≡ true
unfolding load_at load_state_tracked record_exit record_tracked record_systemd_exit_state put find
    lookup insert load_state_init load_init_unit init_name get_unit_state set_state_init apply_state
    finish_exit publish new_process has_exited copy_to to_status
still_loads = refl

still_up :
    0
    < pid_at
        (load_at all_up (load_state_tracked all_up) noted (init_ref "ns/c")).0
        (init_ref "ns/c")
unfolding pid_at load_at load_state_tracked record_exit record_tracked record_systemd_exit_state put
    find lookup insert load_state_init load_init_unit init_name get_unit_state set_state_init
    apply_state finish_exit publish new_process has_exited copy_to to_status just_exited
still_up = omega arith

signalled-exited_example :
    let t = enqueue_if_exit (shim_lookup all_up) tracked new_unit_work_queue exit_update in
    let r = reconcile_unit (shim_lookup all_up) t.0 "unit_c" in
    (r.1 ≡ true) × (has_exited (state_at r.0 (init_ref "ns/c")) ≡ true)
signalled-exited_example =
    signalled-exited (shim_lookup all_up) tracked new_unit_work_queue exit_update seen
      (init_ref "ns/c") refl tells found not_exited
      (unfold recorded_at find lookup new_process in λ old h. absurd (cc)) still_loads still_up

-- The signal of the exit comes while the dials fail, and is lost.
abbrev before : List (Attempt (shim_lookup quiet))
before = refused (signals exit_update ∷ []) ∷ refused [] ∷ []

abbrev during : List (Moment (shim_lookup quiet))
during = takes ∷ signals exit_update ∷ []

reconnected-handed_example :
    let l = shim_lookup quiet in
    let (s, q) = attempts l (tracked, new_unit_work_queue) before in
    (is_handed_in l true (s, resync l s q) during "unit_c" ≡ true)
    ⊎ (pending (moments l true (s, resync l s q) during).1 "unit_c" ≡ true)
reconnected-handed_example =
    reconnected-handed (shim_lookup quiet) tracked before during "unit_c"
      (unfold attempts attempt moments moment paths in refl)

-- The same process once its exit is recorded.
abbrev recorded_init : InitProcess
recorded_init = record init_process {
  process = record (init_process.process) {
    systemd_exit_state = seen;
    has_systemd_exit_state = true;
  };
}

abbrev recorded_exec : ExecProcess
recorded_exec = record {
  process = recorded_init.process;
  exec_id = "e";
  container_id = "c";
  bundle = "/run/c";
}

abbrev shim : Shim ℕ
shim = record { world = 0; channel = []; calls = [] }

seen-exited : has_exited seen ≡ true
unfolding has_exited exit_status_for
seen-exited = refl
