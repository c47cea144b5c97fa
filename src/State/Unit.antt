-- ===== src/State/Unit.antt =====
-- state.go: what the shim reads of a unit's properties. `GetAll` is a parameter of the callers; its
-- answer is a record, with an option where the code tests for a missing property. The values have
-- the types of systemd's interface (a value of another type panics in Go). An int32 is the uint32
-- with the same bits.
use containerd_shim_systemd.Prelude.{
  ℕ, ◌<◌, ◌≡◌, ◌≢◌, refl, Bool, true, false, String, List, [], ◌∷◌, Option, none, some, arith, ltb,
  ◌==◌, if◌then◌else◌, not, ◌&&◌,
}
use containerd_shim_systemd.State.{PState, has_exited}
use containerd_shim_systemd.State.Time.{time_zero, after, unix_micro}
use containerd_shim_systemd.State.Status.{exit_status_for}

-- An entry of `ExecStart`: the fields that the shim reads, at their indices.
pub record ExecStatus : Type 0 where
  pub path : String  -- 0
  pub args : List String  -- 1
  pub started : ℕ  -- 3, uint64
  pub exited : ℕ  -- 5, uint64
  pub pid : ℕ  -- 7, uint32
  pub code : ℕ  -- 8, int32
  pub status : ℕ  -- 9, int32

pub record UnitProperties : Type 0 where
  pub exec_main_pid : Option ℕ
  pub exec_main_status : Option ℕ
  pub exec_main_code : Option ℕ
  pub exec_start : List ExecStatus
  pub sub_state : Option String

unfoldable pub read_exec_status_exit : ExecStatus → ℕ × ℕ
read_exec_status_exit e = (e.status, unix_micro e.exited)

pub record ExecState : Type 0 where
  pub path : String
  pub started : ℕ
  pub exited : ℕ
  pub exit_status : ℕ
  pub args : List String
  pub pid : ℕ
  pub status_code : ℕ

-- `parseExecStartStatus`; `none` is `errdefs.ErrNotFound`.
unfoldable pub parse_exec_start_status : List ExecStatus → ExecState → Option ExecState
parse_exec_start_status [] st = none
parse_exec_start_status (e ∷ es) st = some (record {
  path = e.path;
  started = if ltb 0 e.started then unix_micro e.started else st.started;
  exited = if ltb 0 e.exited then unix_micro e.exited else st.exited;
  exit_status = e.status;
  args = e.args;
  pid = e.pid;
  status_code = e.code;
})

-- The assignments of `getUnitState`, in their order.
read_pid : Option ℕ → PState → PState
read_pid none st = st
read_pid (some p) st = record st { pid = p }

abbrev or_zero : Option ℕ → ℕ
or_zero none = 0
or_zero (some c) = c

read_exit_code : Option ℕ → Option ℕ → PState → PState
read_exit_code main_code none st = st
read_exit_code main_code (some c) st = record st {
  exit_code = exit_status_for (or_zero main_code) c;
}

read_exec_start : List ExecStatus → PState → PState
unfolding read_exec_status_exit
read_exec_start [] st = st
read_exec_start (e ∷ es) st =
    let code = (read_exec_status_exit e).0 in
    if st.exit_code == 0 then if ltb 0 code then record st { exit_code = code } else st else st

read_sub_state : Option String → PState → PState
read_sub_state none st = st
read_sub_state (some s) st = record st { status = s }

-- `getUnitState`: the new value of `st`, and whether the read worked.
unfoldable pub get_unit_state : Option UnitProperties → PState → PState × Bool
unfolding read_pid read_exit_code read_exec_start read_sub_state
get_unit_state none st = (st, false)
get_unit_state (some u) st = (
  read_sub_state u.sub_state (
      read_exec_start u.exec_start
        (read_exit_code u.exec_main_code u.exec_main_status (read_pid u.exec_main_pid st))),
  true,
)

-- `loadExitFromUnit`; `now` is `time.Now()`, and `none` the error of the read.
unfoldable pub load_exit_from_unit : ℕ → Option UnitProperties → Option PState
unfolding get_unit_state
load_exit_from_unit now props =
    let (st, ok) =
      get_unit_state props
        (record { exited_at = time_zero; exit_code = 0; pid = 0; status = "" }) in
    if not ok
    then none
    else if has_exited st && not (after st.exited_at time_zero)
    then some (record st { exited_at = now })
    else some st

exit_status_for-pos : (c s : ℕ) → 0 < s → s < 2147483648 → (0 < exit_status_for c s)
unfolding exit_status_for
exit_status_for-pos c s p q = ground arith

-- The targeted read of a unit whose main process has ended with a status other than 0 gives a
-- terminal state, with that status in containerd's terms, stamped with the time of the read.
pub load_exit_from_unit-main :
    (now : ℕ) (u : UnitProperties) (c s : ℕ)
    → u.exec_main_code ≡ some c
    → u.exec_main_status ≡ some s
    → 0 < s
    → s < 2147483648
    → (st : PState) × (load_exit_from_unit now (some u) ≡ some st)
      × (st.exit_code ≡ exit_status_for c s)
      × (has_exited st ≡ true)
      × (st.exited_at ≡ now)
unfolding load_exit_from_unit has_exited
load_exit_from_unit-main now u c s hc hs p q = (
  record {
    exited_at = now;
    exit_code = exit_status_for c s;
    pid = or_zero u.exec_main_pid;
    status = elim u.sub_state [ none ↦ "" | some t ↦ t ];
  },
  ground (arith, exit_status_for-pos c s p q),
  refl,
  ground (arith, exit_status_for-pos c s p q),
  refl,
)

-- The two sources of an exit do not agree on a signal: where the main status says nothing, the
-- status of `ExecStart` is taken as it is, so a process killed by signal `s` exits with `s` and not
-- with `128 + s`.
pub get_unit_state-raw_signal :
    (u : UnitProperties) (e : ExecStatus) (es : List ExecStatus) (st : PState)
    → u.exec_main_status ≡ none
    → u.exec_start ≡ e ∷ es
    → st.exit_code ≡ 0
    → e.code ≡ 2
    → 0 < e.status
    → e.status < 2147483648
    → ((get_unit_state (some u) st).0.exit_code ≡ e.status)
      × ((get_unit_state (some u) st).0.exit_code ≢ exit_status_for e.code e.status)
unfolding get_unit_state exit_status_for
get_unit_state-raw_signal u e es st a b c d p q = ground arith
