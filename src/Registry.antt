-- ===== src/Registry.antt =====
-- process.go: the managers of processes and of units, and the processes that they share. The two
-- managers hold pointers to the same processes: here the processes stand once, in the process
-- managers, and the unit manager holds references to them.
pub mod Lookup
pub mod Found
pub mod Instance
use containerd_shim_systemd.Prelude.{
  ℕ, Bool, true, false, String, List, [], ◌∷◌, Option, none, some, map, if◌then◌else◌,
}
use containerd_shim_systemd.Prelude.Assoc.{lookup, insert, remove}
use containerd_shim_systemd.State.{PState, zero_state}
use containerd_shim_systemd.Process.{
  Process, process_state, record_systemd_exit_state, load_recorded_systemd_exit_state,
}
use containerd_shim_systemd.Outside.{Outside}
use containerd_shim_systemd.Task.{
  ExecProcess, InitProcess, Shim, load_state_exec, load_state_init, load_exit_state_exec,
  load_exit_state_init,
}

-- `processManager`, over the processes of a container or the execs of one. `Add` fails with
-- `errdefs.ErrAlreadyExists`.
module _ {P : Type 0} where
  unfoldable pub add_process : List (String × P) → String → P → Option (List (String × P))
  add_process m id p = elim (lookup id m) [ none ↦ some (insert id p m) | some old ↦ none ]

  unfoldable pub get_process : List (String × P) → String → Option P
  get_process m id = lookup id m

  unfoldable pub delete_process : List (String × P) → String → List (String × P)
  delete_process m id = remove id m

-- A pointer to a process: the container's key, `path.Join(ns, id)`, and for an exec its id.
pub data Ref : Type 0 where
  init_ref : (key : String) → Ref
  exec_ref : (key exec_id : String) → Ref

-- The managers; and the execs that left them with their container, which a start that goes on while the
-- container is deleted still has.
pub record Registry (W : Type 0) : Type 0 where
  pub shim : Shim W
  pub processes : List (String × InitProcess)
  pub units : List (String × Ref)
  pub dropped : List ExecProcess

-- What a pointer points to; an exec stands in its parent.
pub data Tracked : Type 0 where
  init_process : InitProcess → Tracked
  exec_process : (parent : InitProcess) (p : ExecProcess) → Tracked

abbrev pub process_of : Tracked → Process
process_of (init_process p) = p.process
process_of (exec_process parent p) = p.process

abbrev pub as_init : Option InitProcess → Option Tracked
as_init none = none
as_init (some p) = some (init_process p)

abbrev pub as_exec : InitProcess → Option ExecProcess → Option Tracked
as_exec parent none = none
as_exec parent (some p) = some (exec_process parent p)

abbrev pub exec_of : String → Option InitProcess → Option Tracked
exec_of id none = none
exec_of id (some parent) = as_exec parent (lookup id parent.execs)

-- `RecordSystemdExitState` of either kind.
unfoldable pub record_tracked : PState → Tracked → Tracked
record_tracked st (init_process p) =
    init_process (record p { process = record_systemd_exit_state p.process st })
record_tracked st (exec_process parent p) =
    exec_process parent (record p { process = record_systemd_exit_state p.process st })

abbrev pub or_zero_state : Option Tracked → PState
or_zero_state none = zero_state
or_zero_state (some t) = process_state (process_of t)

abbrev pub pid_of : Option Tracked → ℕ
pid_of none = 0
pid_of (some t) = (process_of t).state.pid

abbrev pub recorded_of : Option Tracked → Option PState
recorded_of none = none
recorded_of (some t) =
    if (process_of t).has_systemd_exit_state then some ((process_of t).systemd_exit_state) else none

abbrev pub is_found : Option Tracked → Bool
is_found none = false
is_found (some t) = true

module _ {W : Type 0} where
  -- `unitManager`.
  unfoldable pub add_unit : Registry W → String → Ref → Registry W
  add_unit r path_name ref = record r { units = insert path_name ref r.units }

  unfoldable pub delete_unit : Registry W → String → Registry W
  delete_unit r path_name = record r { units = remove path_name r.units }

  unfoldable pub paths : Registry W → List String
  paths r = map (λ u. u.0) r.units

  -- A read and a write through a pointer.
  unfoldable pub find : Registry W → Ref → Option Tracked
  find r (init_ref key) = as_init (lookup key r.processes)
  find r (exec_ref key id) = exec_of id (lookup key r.processes)

  unfoldable pub put : Registry W → Ref → Tracked → Registry W
  put r (init_ref key) (init_process p) = record r { processes = insert key p r.processes }
  put r (exec_ref key id) (exec_process parent p) = record r {
    processes = insert key (record parent { execs = insert id p parent.execs }) r.processes;
  }
  put r _ _ = r

  -- A pointer whose process has left its manager is taken as none.
  abbrev pub existing : Registry W → Option Ref → Option Ref
  existing r none = none
  existing r (some ref) = if is_found (find r ref) then some ref else none

  -- `GetByPath`.
  unfoldable pub get_by_path : Registry W → String → Option Ref
  get_by_path r path_base = existing r (lookup path_base r.units)

  unfoldable pub record_exit : Registry W → Ref → PState → Registry W
  record_exit r ref st = elim (find r ref) [ none ↦ r | some t ↦ put r ref (record_tracked st t) ]

  unfoldable pub state_at : Registry W → Ref → PState
  state_at r ref = or_zero_state (find r ref)

  unfoldable pub pid_at : Registry W → Ref → ℕ
  pid_at r ref = pid_of (find r ref)

  unfoldable pub recorded_at : Registry W → Ref → Option PState
  recorded_at r ref = recorded_of (find r ref)

module _ (o : Outside) where
  open o use {World}

  -- `LoadState` and `LoadExitState` of either kind.
  unfoldable pub load_state_tracked : Shim World → Tracked → Shim World × Tracked × Bool
  load_state_tracked s (init_process p) =
      let (s', p', ok) = load_state_init o s p in (s', init_process p', ok)
  load_state_tracked s (exec_process parent p) =
      let (s', p') = load_state_exec o s p in (s', exec_process parent p', true)

  unfoldable pub load_exit_state_tracked : Shim World → Tracked → Shim World × Tracked × Bool
  load_exit_state_tracked s (init_process p) =
      let (s', p', ok) = load_exit_state_init o s p in (s', init_process p', ok)
  load_exit_state_tracked s (exec_process parent p) =
      let (s', p', ok) = load_exit_state_exec o s p in (s', exec_process parent p', ok)

  -- A call of a loading method through a pointer.
  unfoldable pub load_at :
      (Shim World → Tracked → Shim World × Tracked × Bool)
      → Registry World
      → Ref
      → Registry World × Bool
  load_at load r ref = elim (find r ref) [
    | none ↦ (r, true)
    | some t ↦ let (s, t', ok) = load r.shim t in (put (record r { shim = s }) ref t', ok)
  ]
