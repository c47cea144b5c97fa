-- ===== src/Examples/Controls.antt =====
-- Runs of requests that start an exec or signal a container, and units of execs.
use containerd_shim_systemd.Prelude.{
  ℕ, String, Option, ◌≤◌, ◌≡◌, ◌≢◌, refl, true, false, List, [], ◌∷◌, ◌++◌, none, some,
  if◌then◌else◌,
}
use containerd_shim_systemd.Prelude.Assoc.{insert, lookup}
use containerd_shim_systemd.Phase.{running, exited}
use containerd_shim_systemd.State.{PState}
use containerd_shim_systemd.Outbox.{task_exec_started, new_event_outbox}
use containerd_shim_systemd.Process.{new_process}
use containerd_shim_systemd.Outside.{Call, signals}
use containerd_shim_systemd.Task.{ExecProcess, InitProcess, Shim, init_name}
use containerd_shim_systemd.Task.Once.{is_exit_of, told}
use containerd_shim_systemd.Task.Acts.{Act, observes_state, publishes, loads, acts, acts-told_once}
use containerd_shim_systemd.Task.Container.{AllQuiet, told_init}
use containerd_shim_systemd.Task.ContainerActs.{
  InitAct, observes_state as observes_init, loads_exit, sets_execs, init_acts, init_acts-told_once,
}
use containerd_shim_systemd.Teardown.{ok, failed_precondition}
use containerd_shim_systemd.Registry.{Registry, init_ref, exec_ref}
use containerd_shim_systemd.Requests.Start.{start_exec_request, start_exec_request-again}
use containerd_shim_systemd.Requests.Control.{
  Control, delivered, kill_failed, known, kill_init_process,
}
use containerd_shim_systemd.Requests.Signalled.{
  is_turned_down, kill_init_process-calls, kill_init_process-unlisted,
}
use containerd_shim_systemd.Launch.Options.{default_options}
use containerd_shim_systemd.Launch.Properties.{InitSetup}
use containerd_shim_systemd.Adapter.Messages.{TaskService}
use containerd_shim_systemd.Adapter.Transparent.{IsTransparent, adapter-IsTransparent}
use containerd_shim_systemd.Examples.World.{quiet}

abbrev shim : Shim ℕ
shim = record { world = 0; channel = []; calls = [] }

abbrev exec : ExecProcess
exec = record {
  process = new_process "ns" "e" "unit_e" false;
  exec_id = "e";
  container_id = "c";
  bundle = "/run/c";
}

abbrev killed : PState
killed = record { exited_at = 9999999999999999999999; exit_code = 137; pid = 42; status = "failed" }

-- The exit is observed twice, and the start only published between.
abbrev todo : List (Act quiet)
todo =
    observes_state killed
    ∷ publishes (task_exec_started "c" "e" 42)
    ∷ observes_state killed
    ∷ loads
    ∷ []

none-told : told quiet shim exec ≡ 0
unfolding new_process new_event_outbox
none-told = refl

exec-live : exec.process.phase ≢ exited
unfolding new_process
exec-live h = cc

acts-told_once_example :
    let (s, p) = acts quiet (shim, exec) todo in
    (told quiet s p ≤ 1) × (p.process.phase ≡ exited → told quiet s p ≡ 1)
acts-told_once_example =
    acts-told_once quiet shim exec todo exec-live none-told (tt, (refl, (tt, (tt, tt))))

abbrev container : InitProcess
container = record {
  process = record (new_process "ns" "c" "unit_c" false) {
    phase = running;
    state = record { exited_at = 0; exit_code = 0; pid = 42; status = "running" };
  };
  bundle = "/run/c";
  checkpoint = "";
  kill_all_on_exit = true;
  execs = ("e", exec) ∷ [];
}

-- The container's exit is observed twice, with its exec in it and without.
abbrev ends : List (InitAct quiet (is_exit_of "c" "c"))
ends = observes_init killed ∷ loads_exit ∷ sets_execs [] ∷ observes_init killed ∷ []

no_exit-told : told_init quiet (is_exit_of "c" "c") shim container ≡ 0
unfolding new_process new_event_outbox
no_exit-told = refl

exec-quiet : AllQuiet quiet (is_exit_of "c" "c") container.execs
unfolding new_process new_event_outbox
exec-quiet = ((refl, λ code at pid. refl), tt)

init_acts-told_once_example :
    let r = init_acts quiet (is_exit_of "c" "c") (shim, container) ends in
    told_init quiet (is_exit_of "c" "c") r.0 r.1 ≤ 1
unfolding new_process
init_acts-told_once_example =
    init_acts-told_once quiet shim container ends no_exit-told exec-quiet (tt, (tt, (tt, (tt, tt))))

abbrev tracked : Registry ℕ
tracked = record {
  shim = shim;
  processes = ("ns/c", container) ∷ [];
  units = ("unit_c", init_ref "ns/c") ∷ ("unit_e", exec_ref "ns/c" "e") ∷ [];
  dropped = [];
}

-- The exec is running when it is started again.
abbrev running_exec : ExecProcess
running_exec = record exec { process = record exec.process { phase = running } }

start_exec_request-again_example :
    let (r, out) = start_exec_request quiet (λ p. p) tracked "ns/c" container "e" running_exec in
    (out ≡ failed_precondition)
    × (r.shim ≡ tracked.shim)
    × (lookup "ns/c" r.processes
        ≡ some (record container { execs = insert "e" running_exec container.execs }))
    × (lookup running_exec.process.path_name r.units ≡ none)
start_exec_request-again_example =
    start_exec_request-again quiet (λ p. p) tracked "ns/c" container "e" running_exec (λ h. cc)

-- Signals are refused; runc knows the container, systemd lists no unit.
abbrev refusing : Control ℕ
refusing = record {
  kill_unit_with_target = λ w n all sig. (kill_failed, w);
  runc_state = λ w n. (known, w);
  list_units = λ w n. (some [], w);
  runc_pause = λ w n. (true, w);
  runc_resume = λ w n. (true, w);
  runc_ps = λ w n. (none, w);
  mkdir_all = λ w n. (true, w);
  runc_checkpoint = λ w n opts running. (true, w);
  is_resources = λ r. true;
  runc_update = λ w n r. (true, w);
  shim_pid = 1;
  is_unified = true;
  pid_group_path = λ w n. none;
  load_cgroup2 = λ w n. false;
  stat_cgroup2 = λ w n. none;
  load_cgroup1 = λ w n. false;
  stat_cgroup1 = λ w n. none;
}

kill_init_process-calls_example :
    let r = kill_init_process quiet refusing shim container 15 true in
    let sent : List Call =
      if is_turned_down container then [] else signals (init_name container) true 15 ∷ [] in
    (r.0.calls ≡ shim.calls ++ sent)
    × (r.1 ≡ some (ok tt)
        → (is_turned_down container ≡ false)
          × ((refusing.kill_unit_with_target 0 (init_name container) true 15).0 ≡ delivered))
kill_init_process-calls_example = kill_init_process-calls quiet refusing shim container 15 true

-- The list of units cannot be had.
abbrev fails : ℕ → String → Option (List (String × String)) × ℕ
fails w name = (none, w)

kill_init_process-unlisted_example :
    let r = kill_init_process quiet refusing shim container 15 true in
    let r' =
      kill_init_process quiet (record refusing { list_units = fails }) shim container 15 true in
    (r.1 ≡ r'.1) × (r.0.calls ≡ r'.0.calls)
kill_init_process-unlisted_example =
    kill_init_process-unlisted quiet refusing fails shim container 15 true

abbrev setup : InitSetup
setup = record {
  base = record {
    ns = "ns";
    id = "c";
    exe = "/bin/shim";
    root = "/run/c";
    stdin = "";
    stdout = "";
    stderr = "";
    terminal = false;
    opts = default_options "stdio";
    runc = record {
      command = "runc";
      debug = false;
      systemd_cgroup = false;
      root = "/run/runc/ns";
      log = "";
    };
    shim_cgroup = "";
  };
  bundle = "/run/c";
  has_rootfs = true;
  no_new_namespace = false;
  checkpoint = "";
}

-- A service that has nothing.
abbrev empty_service : TaskService ℕ
empty_service = record {
  state = λ w q. ((none, some "not found"), w);
  create = λ w q. ((none, some "not found"), w);
  start = λ w q. ((none, some "not found"), w);
  delete = λ w q. ((none, some "not found"), w);
  pids = λ w q. ((none, some "not found"), w);
  pause = λ w q. ((none, some "not found"), w);
  resume = λ w q. ((none, some "not found"), w);
  checkpoint = λ w q. ((none, some "not found"), w);
  kill = λ w q. ((none, some "not found"), w);
  exec = λ w q. ((none, some "not found"), w);
  resize_pty = λ w q. ((none, some "not found"), w);
  close_io = λ w q. ((none, some "not found"), w);
  update = λ w q. ((none, some "not found"), w);
  wait = λ w q. ((none, some "not found"), w);
  stats = λ w q. ((none, some "not found"), w);
  connect = λ w q. ((none, some "not found"), w);
  shutdown = λ w q. ((some tt, none), w);
}

adapter-IsTransparent_example : IsTransparent empty_service
adapter-IsTransparent_example = adapter-IsTransparent empty_service
