-- ===== src/Examples/Processes.antt =====
-- Runs of a process of process.go, and of the readings of state.go.
use containerd_shim_systemd.Prelude.{
  ◌≤◌, ◌≡◌, ◌≢◌, refl, true, false, [], ◌∷◌, none, some, arith, str_eq, if◌then◌else◌,
}
use containerd_shim_systemd.Phase.{running, exited, can_become, rank}
use containerd_shim_systemd.State.{PState, has_exited, copy_to}
use containerd_shim_systemd.State.Time.{unix_micro}
use containerd_shim_systemd.State.Status.{to_status, exit_status_for}
use containerd_shim_systemd.State.Unit.{ExecStatus, UnitProperties, load_exit_from_unit}
use containerd_shim_systemd.Signals.{Changed, uint32, int32, uint64, service_exit_state}
use containerd_shim_systemd.Signals.Exit.{Tells, sources_agree}
use containerd_shim_systemd.Process.{
  Process, new_process, advance, begin_start, abort_start, apply_state,
}
use containerd_shim_systemd.Process.Lifecycle.{
  Reach, here, next, begins, finishes, observes, aborts, IsConsistent, reachable-IsConsistent,
}
use containerd_shim_systemd.Process.Exit.{start_exclusive, no_way_back, HasAbort}

abbrev fresh : Process
fresh = new_process "ns" "c" "unit" false

abbrev claimed : Process
claimed = (begin_start fresh).0

abbrev started : Process
started = (advance claimed running).0

-- Killed by SIGKILL, as the shim reports it.
abbrev killed : PState
killed = record { exited_at = 9999999999999999999999; exit_code = 137; pid = 42; status = "failed" }

abbrev up : PState
up = record { exited_at = 0; exit_code = 0; pid = 42; status = "running" }

abbrev ended : Process
ended = (apply_state 0 started killed).0

-- The second observation finds the process ended.
abbrev twice : Process
twice = (apply_state 0 ended killed).0

abbrev to_ended : Reach fresh ended
to_ended = next (next (next here (begins refl)) (finishes refl)) (observes 0 killed refl)

abbrev to_twice : Reach fresh twice
to_twice = next to_ended (observes 0 killed refl)

ended-phase : ended.phase ≡ exited
unfolding new_process begin_start advance can_become apply_state copy_to has_exited to_status
ended-phase = refl

reachable-IsConsistent_example : IsConsistent twice
reachable-IsConsistent_example = reachable-IsConsistent "ns" "c" "unit" false twice to_twice

-- A failed attempt is taken back, and the next start is granted.
abbrev released : Process
released = abort_start claimed

abbrev released_path : Reach claimed released
released_path = next here (aborts refl)

start_exclusive_example : HasAbort released_path
start_exclusive_example =
    start_exclusive fresh released released_path
      (unfold new_process begin_start advance can_become in refl)
      (unfold new_process begin_start advance can_become abort_start in refl)

no_way_back_example : ((begin_start twice).1 ≢ none) × (rank ended.phase ≤ rank twice.phase)
no_way_back_example = no_way_back ended twice (next here (observes 0 killed refl)) (
    unfold new_process begin_start advance can_become apply_state copy_to has_exited to_status in
    refl)

abbrev again : Reach ended twice
again = next here (observes 0 killed refl)

-- systemd reports the unit as running while the process is starting.
abbrev early : Process
early = (apply_state 0 claimed up).0

early-status : early.state.status ≡ "created"
unfolding new_process begin_start advance can_become apply_state copy_to has_exited to_status
early-status = refl

-- The properties of a service whose main process was killed by signal 9.
abbrev sigkill : Changed
sigkill name =
    if str_eq name "ExecMainPID"
    then some (uint32 42)
    else if str_eq name "ExecMainStatus"
    then some (int32 9)
    else if str_eq name "ExecMainCode"
    then some (int32 2)
    else if str_eq name "ExecMainExitTimestamp"
    then some (uint64 1700000000000000)
    else none

sigkill-Tells : Tells sigkill 42 9 2 1700000000000000
sigkill-Tells = record {
  pid_is = refl;
  status_is = refl;
  code_is = refl;
  time_is = refl;
  pid_set = omega arith;
  status_positive = omega arith;
  time_set = omega arith;
}

abbrev sigkill_seen : PState
sigkill_seen = record {
  exited_at = unix_micro 1700000000000000;
  exit_code = exit_status_for 2 9;
  pid = 42;
  status = "exited";
}

sigkill-code : sigkill_seen.exit_code ≡ 137
unfolding exit_status_for
sigkill-code = refl

abbrev killed_unit : UnitProperties
killed_unit = record {
  exec_main_pid = some 42;
  exec_main_status = some 9;
  exec_main_code = some 2;
  exec_start = [];
  sub_state = some "failed";
}

sources_agree_example :
    (seen read : PState) × (service_exit_state sigkill ≡ some seen)
    × (load_exit_from_unit 77 (some killed_unit) ≡ some read)
    × (seen.exit_code ≡ read.exit_code)
    × (has_exited seen ≡ true)
    × (has_exited read ≡ true)
sources_agree_example =
    sources_agree sigkill killed_unit 77 42 9 2 1700000000000000 sigkill-Tells refl refl
      (omega arith)

abbrev exec_killed : ExecStatus
exec_killed = record {
  path = "/bin/sh";
  args = [];
  started = 1;
  exited = 2;
  pid = 42;
  code = 2;
  status = 9;
}

abbrev bare_unit : UnitProperties
bare_unit = record killed_unit { exec_main_status = none; exec_start = exec_killed ∷ [] }
