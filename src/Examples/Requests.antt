-- ===== src/Examples/Requests.antt =====
-- Runs of requests: a container and an exec that are started, waited for and deleted.
use containerd_shim_systemd.State.Unit.{load_exit_from_unit}
use containerd_shim_systemd.Prelude.{
  String, ℕ, ◌≡◌, refl, true, false, ◌||◌, ◌==◌, List, [], ◌∷◌, ◌++◌, none, some, str_eq,
}
use containerd_shim_systemd.Prelude.Assoc.{insert, lookup}
use containerd_shim_systemd.Phase.{running, exited, can_become}
use containerd_shim_systemd.State.{PState, has_exited, has_started, zero_state, copy_to}
use containerd_shim_systemd.State.Status.{to_status}
use containerd_shim_systemd.Process.{
  apply_state, just_exited, set_pid, clear_recorded_systemd_exit_state, Process, new_process,
  begin_start, advance, process_state, abort_start,
}
use containerd_shim_systemd.Outside.{Outside}
use containerd_shim_systemd.Task.{
  publish, set_state_init, finish_exit, load_state_exec, ExecProcess, InitProcess, exec_name,
  init_name, Shim,
}
use containerd_shim_systemd.Wait.{Wake}
use containerd_shim_systemd.Teardown.{
  delete_init_ends, delete_in_runc, tear_down_init, found_as, start_transient_unit, ok, delete_init,
  delete_exec,
}
use containerd_shim_systemd.Teardown.Released.{
  IsReleased, delete_init-IsReleased, delete_exec-IsReleased,
}
use containerd_shim_systemd.Startup.{
  is_error, get_pid, start_exec_pid, start_exec_job, start_exec_unit, is_ok, run_exec, start_exec,
  start_exec_started, start_ends, unless_deleting,
}
use containerd_shim_systemd.Startup.Raced.{no_reference, is_held, held_after}
use containerd_shim_systemd.Startup.Abandoned.{start_exec-held}
use containerd_shim_systemd.Startup.Container.{start_init, restore_unit}
use containerd_shim_systemd.Startup.Container.Alive.{start_init-exited}
use containerd_shim_systemd.Registry.{add_process, Registry, init_ref, exec_ref}
use containerd_shim_systemd.Create.{
  create_init, undo_create, create_fails, CreateRequest, create_request, new_init,
}
use containerd_shim_systemd.Create.Undone.{create_request-untracked}
use containerd_shim_systemd.Create.Helper.{
  HelperRun, still_running, signalled, workload_state, notify_workload, open_fifo, open_stderr,
  look_again, hand_off, after_runc, create_cmd,
}
use containerd_shim_systemd.Create.Handoff.{
  states_in, notices_in, notices_of, has_started as helper_has_started, create_cmd-told,
}
use containerd_shim_systemd.Create.Ended.{last_written, create_cmd-exited}
use containerd_shim_systemd.State.Time.{zero_time}
use containerd_shim_systemd.Requests.{delete_init_request}
use containerd_shim_systemd.Requests.Dropped.{marked, AllGivenUp, delete_init_request-dropped}
use containerd_shim_systemd.Requests.Tracking.{any_path, delete_init_request-untracked}
use containerd_shim_systemd.Examples.World.{quiet}

abbrev container : InitProcess
container = record {
  process = new_process "ns" "c" "unit_c" false;
  bundle = "/run/c";
  checkpoint = "";
  kill_all_on_exit = true;
  execs = [];
}

abbrev exec : ExecProcess
exec = record {
  process = new_process "ns" "e" "unit_e" false;
  exec_id = "e";
  container_id = "c";
  bundle = "/run/c";
}

abbrev shim : Shim ℕ
shim = record { world = 0; channel = []; calls = [] }

abbrev dead : Process
dead = record container.process {
  phase = exited;
  state = record { exited_at = 0; exit_code = 137; pid = 42; status = "failed" };
}

abbrev wakes : List Wake
wakes =
    record { is_cancelled = false; process = container.process }
    ∷ record { is_cancelled = false; process = dead }
    ∷ []

delete_init-IsReleased_example :
    let r = delete_init quiet wakes shim container in IsReleased (init_name container) r.0 r.2
delete_init-IsReleased_example = delete_init-IsReleased quiet wakes shim container refl

delete_exec-IsReleased_example :
    let r = delete_exec quiet wakes shim container.process exec in
    IsReleased (exec_name exec) r.0 r.2
delete_exec-IsReleased_example = delete_exec-IsReleased quiet wakes shim container.process exec refl

-- The exec is deleted while its unit starts.
abbrev deletes : Process → Process
deletes p = record p { deleting = true }

-- A container that is up.
abbrev parent_up : InitProcess
parent_up = record container {
  process = record container.process {
    phase = running;
    state = record { exited_at = 0; exit_code = 0; pid = 42; status = "running" };
  };
}

exec-granted : (begin_start exec.process).1 ≡ none
unfolding begin_start advance can_become new_process
exec-granted = refl

exec-deleting : (start_exec quiet deletes shim parent_up exec).2.process.deleting ≡ true
unfolding start_exec start_exec_started start_ends begin_start advance can_become has_started
    run_exec start_exec_unit start_transient_unit start_exec_job start_exec_pid process_state
    copy_to load_state_exec found_as clear_recorded_systemd_exit_state new_process to_status get_pid
    set_pid unless_deleting abort_start
exec-deleting = refl

start_exec-held_example :
    let (s, parent, p, out) = start_exec quiet deletes shim parent_up exec in
    (is_held (held_after (exec_name exec) no_reference s.calls) ≡ false) × (is_ok out ≡ false)
start_exec-held_example =
    start_exec-held quiet deletes shim parent_up exec refl exec-granted refl exec-deleting

restored-deleting : (restore_unit quiet deletes shim container).1.process.deleting ≡ true
unfolding restore_unit found_as
restored-deleting = refl

abbrev no_runc : Outside
no_runc = record quiet { runc_start = λ w c. (false, w) }

start_init-exited_example :
    let r = start_init no_runc 3 shim container in
    (is_ok r.2 ≡ false) × (has_exited (process_state r.1.process) ≡ true)
start_init-exited_example =
    start_init-exited no_runc 3 shim container
      (unfold begin_start advance can_become new_process in refl) refl

abbrev tracked : Registry ℕ
tracked = record {
  shim = shim;
  processes = ("ns/c", record container { execs = ("e", exec) ∷ [] }) ∷ [];
  units = ("unit_c", init_ref "ns/c") ∷ ("unit_e", exec_ref "ns/c" "e") ∷ [];
  dropped = [];
}

abbrev with_exec : InitProcess
with_exec = record container { execs = ("e", exec) ∷ [] }

deleted-ok : (delete_init quiet [] shim with_exec).2 ≡ ok zero_state
unfolding delete_init has_exited process_state copy_to new_process to_status load_exit_from_unit
    tear_down_init delete_in_runc delete_init_ends
deleted-ok = refl

deleted-path :
    (str_eq "unit_c" "unit_e" || any_path "unit_e" (delete_init quiet [] shim with_exec).1.execs)
    ≡ true
unfolding delete_init has_exited process_state copy_to new_process to_status load_exit_from_unit
    tear_down_init delete_in_runc delete_init_ends
deleted-path = refl

delete_init_request-untracked_example :
    let r = (delete_init_request quiet [] tracked "ns/c" with_exec).0 in
    (lookup "ns/c" r.processes ≡ none) × (lookup "unit_e" r.units ≡ none)
delete_init_request-untracked_example =
    delete_init_request-untracked quiet [] tracked "ns/c" with_exec zero_state "unit_e" deleted-ok
      (unfold new_process in deleted-path)

delete_init_request-dropped_example :
    let execs = (delete_init quiet [] shim with_exec).1.execs in
    let r = (delete_init_request quiet [] tracked "ns/c" with_exec).0 in
    (r.dropped ≡ [] ++ marked execs) × AllGivenUp execs r.shim.calls
delete_init_request-dropped_example =
    delete_init_request-dropped quiet [] tracked "ns/c" with_exec zero_state refl deleted-ok

abbrev being_deleted : InitProcess
being_deleted = record with_exec { process = record container.process { deleting = true } }

abbrev request : CreateRequest
request = record {
  ns = "ns";
  id = "d";
  bundle = "/run/d";
  stdin = "";
  stdout = "";
  stderr = "";
  terminal = false;
  checkpoint = "";
  namespaces = none;
}

-- The mount configuration cannot be written.
abbrev no_mounts : Outside
no_mounts = record quiet { write_mounts = λ w b. (false, w) }

abbrev both : List (String × InitProcess)
both = ("ns/c", with_exec) ∷ ("ns/d", new_init no_mounts request) ∷ []

added : add_process tracked.processes "ns/d" (new_init no_mounts request) ≡ some both
unfolding add_process lookup insert
added = refl

refused : is_error (create_request no_mounts [] tracked "ns/d" request).1 ≡ true
unfolding create_request add_process lookup create_init undo_create delete_init has_exited
    process_state copy_to set_state_init just_exited apply_state create_fails new_init new_process
    to_status can_become finish_exit tear_down_init delete_in_runc delete_init_ends publish
refused = refl

create_request-untracked_example :
    let r = (create_request no_mounts [] tracked "ns/d" request).0 in
    (lookup "ns/d" r.processes ≡ none)
    × (lookup (new_init no_mounts request).process.path_name r.units ≡ none)
create_request-untracked_example =
    create_request-untracked no_mounts [] tracked "ns/d" request both added refused

-- The workload dies between the two looks.
abbrev handoff : HelperRun
handoff = record {
  stdin_fifo = "";
  stdout_fifo = "/run/c/out";
  stderr_fifo = "/run/c/err";
  can_open = λ path mode. str_eq path "/run/c/out";
  runc_starts = true;
  runc_failure = none;
  runc_pid = 41;
  pid_file = some 42;
  first_look = some still_running;
  second_look = some (signalled 9);
  runc_ended = 1;
  first_time = 2;
  second_time = 3;
  first_write = true;
  second_write = true;
}

-- With a terminal, the FIFO for the errors need not be there.
helper-started : helper_has_started (create_cmd handoff true false).0 ≡ true
unfolding create_cmd open_fifo open_stderr after_runc hand_off workload_state look_again
    notify_workload
helper-started = refl

create_cmd-exited_example :
    let (acts, success) = create_cmd handoff true false in
    (st : PState) × (last_written (states_in acts) ≡ some st)
    × (has_exited st ≡ true)
    × (success ≡ (st.exit_code == 0 || st.exited_at == zero_time))
create_cmd-exited_example =
    create_cmd-exited handoff true 42 still_running (signalled 9) helper-started refl refl refl refl
      refl refl refl

create_cmd-told_example :
    let acts = (create_cmd handoff true false).0 in notices_in acts ≡ notices_of (states_in acts)
create_cmd-told_example = create_cmd-told handoff true false refl
