-- ===== src/Requests/Signalled.antt =====
-- manager.go and process.go: what a kill asks and answers, and requests for what is not there.
use mathlib.Core.List.{append-nil}
use containerd_shim_systemd.Prelude.{
  ℕ, ◌≡◌, ◌≢◌, refl, Bool, false, ◌||◌, String, List, [], ◌∷◌, ◌++◌, Option, none, some, arith,
  ◌==◌, if◌then◌else◌,
}
use containerd_shim_systemd.State.{has_exited}
use containerd_shim_systemd.Process.{Process, process_state}
use containerd_shim_systemd.Outside.{Outside, Call, signals}
use containerd_shim_systemd.Task.{InitProcess, init_name, Shim}
use containerd_shim_systemd.Teardown.{ok, called}
use containerd_shim_systemd.Registry.{Registry, get_process}
use containerd_shim_systemd.Wait.{Wake}
use containerd_shim_systemd.Requests.{delete_request, exec_request}
use containerd_shim_systemd.Requests.Start.{start_request}
use containerd_shim_systemd.Requests.Control.{
  Control, KillAnswer, delivered, AnyOptions, look_at_units, kill_refused, kill_init_process,
  kill_request, pause_request, resume_request, pids_request, checkpoint_request, connect_request,
  stats_request, update_request, pass_on,
}

-- Whether a kill of a container is turned down before anything is asked.
abbrev pub is_turned_down : InitProcess → Bool
is_turned_down p = p.process.state.pid == 0 || has_exited (process_state p.process)

module _ (o : Outside) (k : Control (o.World)) where
  open o use {World}

  kill_refused-calls :
      (s : Shim World) (p : InitProcess) (answer : KillAnswer)
      → ((kill_refused o k s p answer).0.calls ≡ s.calls)
        × (answer ≢ delivered → (kill_refused o k s p answer).1 ≢ some (ok tt))
  unfolding kill_refused look_at_units
  kill_refused-calls s p answer = ground arith

  -- A kill of a container sends the signal once, to all processes of its unit or to the main one, as
  -- it was asked to, and sends none where the container has no process id or has exited; it is
  -- answered with success only if systemd has delivered that signal.
  pub kill_init_process-calls :
      (s : Shim World) (p : InitProcess) (sig : ℕ) (all : Bool)
      → let r = kill_init_process o k s p sig all in
        let sent : List Call =
          if is_turned_down p then [] else signals (init_name p) all sig ∷ [] in
        (r.0.calls ≡ s.calls ++ sent)
        × (r.1 ≡ some (ok tt)
            → (is_turned_down p ≡ false)
              × ((k.kill_unit_with_target s.world (init_name p) all sig).0 ≡ delivered))
  unfolding kill_init_process
  kill_init_process-calls s p sig all =
      let (answer, w) = k.kill_unit_with_target s.world (init_name p) all sig in
      let asked = kill_refused-calls (called s (signals (init_name p) all sig) w) p answer in
      ground (arith, append-nil s.calls, asked)

  -- How a kill of a container is answered, and what it asks, does not depend on which units systemd
  -- lists, nor on whether it lists any: a unit that is gone, or that is not running, is never answered
  -- as such.
  pub kill_init_process-unlisted :
      (list : World → String → Option (List (String × String)) × World) (s : Shim World)
      (p : InitProcess) (sig : ℕ) (all : Bool)
      → let r = kill_init_process o k s p sig all in
        let r' = kill_init_process o (record k { list_units = list }) s p sig all in
        (r.1 ≡ r'.1) × (r.0.calls ≡ r'.0.calls)
  unfolding kill_init_process kill_refused look_at_units
  kill_init_process-unlisted list s p sig all = ground arith

  -- A request for a container that is not there is answered with not found by each handler, and
  -- changes nothing.
  pub unknown-not_found :
      (wakes : List Wake) (others : Process → Process) (n sig : ℕ) (all terminal : Bool)
      (options : Option AnyOptions) (path resources exec_id : String) (r : Registry World)
      (key : String)
      → get_process r.processes key ≡ none
      → (start_request o others n r key exec_id ≡ (r, none))
        × (delete_request o wakes r key exec_id ≡ (r, none))
        × (exec_request o r key exec_id terminal ≡ (r, none))
        × (kill_request o k r key exec_id sig all ≡ (r, none))
        × (pause_request o k r key ≡ (r, none))
        × (resume_request o k r key ≡ (r, none))
        × (pids_request o k r key ≡ (r, none))
        × (checkpoint_request o k options path r key ≡ (r, none))
        × (connect_request o k r key ≡ (r, none))
        × (stats_request o k r key ≡ (r, none))
        × (update_request o k resources r key ≡ (r, none))
  unfolding start_request delete_request exec_request kill_request pause_request resume_request
      pids_request checkpoint_request connect_request stats_request update_request
  unknown-not_found wakes others n sig all terminal options path resources exec_id r key h = (
    rw (h, start_request) refl,
    rw (h, delete_request) refl,
    rw (h, exec_request) refl,
    rw (h, kill_request) refl,
    rw (h, pause_request, pass_on) refl,
    rw (h, resume_request, pass_on) refl,
    rw (h, pids_request, pass_on) refl,
    rw (h, checkpoint_request, pass_on) refl,
    rw (h, connect_request, pass_on) refl,
    rw (h, stats_request, pass_on) refl,
    rw (h, update_request, pass_on) refl,
  )
