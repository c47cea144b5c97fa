-- ===== src/Signals.antt =====
-- unitsignals.go: what the shim reads out of a D-Bus signal of systemd. The dialling of the bus and
-- the channel are not modelled: a signal is a value.
pub mod Exit
use Prim.Native.Char.{Char, code}
use Prim.Native.String.{String}
use containerd_shim_systemd.Prelude.{
  ℕ, Bool, true, false, ◌||◌, ◌&&◌, not, List, [], ◌∷◌, Option, none, some, str_eq, if◌then◌else◌,
  ◌==◌,
}
use containerd_shim_systemd.State.{PState}
use containerd_shim_systemd.State.Time.{unix_micro}
use containerd_shim_systemd.State.Status.{int32_negative, exit_status_for}

-- `dbus.Variant`, by the Go types that the shim asks for.
pub data Variant : Type 0 where
  uint32 : ℕ → Variant
  int32 : ℕ → Variant  -- the uint32 with the same bits
  uint64 : ℕ → Variant
  text : String → Variant
  other : Variant

-- `map[string]dbus.Variant`.
abbrev pub Changed : Type 0
Changed = String → Option Variant

-- An element of a signal's body.
pub data BodyItem : Type 0 where
  word : String → BodyItem
  dict : Changed → BodyItem
  other_item : BodyItem

pub record Signal : Type 0 where
  pub name : String
  pub object_path : String
  pub body : List BodyItem

pub record UnitUpdate : Type 0 where
  pub path_base : String
  pub interface_name : String
  pub changed : Changed

abbrev pub unit_interface : String
unit_interface = "org.freedesktop.systemd1.Unit"

abbrev pub service_interface : String
service_interface = "org.freedesktop.systemd1.Service"

abbrev pub properties_changed_signal : String
properties_changed_signal = "org.freedesktop.DBus.Properties.PropertiesChanged"

-- `path.Base`, from the right: the last element read so far, and whether a slash stands before it.
base_step : Char → String × Bool → String × Bool
base_step c (b, cut) =
    if cut
    then (b, cut)
    else if code c == 47
    then (b, not (str_eq b ""))
    else (String.◌∷◌ c b, false)

last_element : String → String × Bool
unfolding base_step
last_element String.[] = ("", false)
last_element (String.◌∷◌ c s) = base_step c (last_element s)

unfoldable pub path_base : String → String
unfolding last_element
path_base s =
    if str_eq s "" then "." else if str_eq (last_element s).0 "" then "/" else (last_element s).0

-- `iface, _ := body[0].(string)`: the empty text for any other type.
abbrev item_text : BodyItem → String
item_text (word s) = s
item_text _ = ""

-- From the second element of the body on.
decode_body : String → String → List BodyItem → Option UnitUpdate
decode_body object_path iface (dict changed ∷ rest) =
    if str_eq iface unit_interface || str_eq iface service_interface
    then some
        (record { path_base = path_base object_path; interface_name = iface; changed = changed })
    else none
decode_body object_path iface _ = none

decode_items : String → List BodyItem → Option UnitUpdate
unfolding decode_body
decode_items object_path [] = none
decode_items object_path (first ∷ rest) = decode_body object_path (item_text first) rest

unfoldable pub decode_systemd_properties_changed : Option Signal → Option UnitUpdate
unfolding decode_items
decode_systemd_properties_changed none = none
decode_systemd_properties_changed (some sig) =
    if str_eq sig.name properties_changed_signal
    then decode_items sig.object_path sig.body
    else none

-- The type assertions `v.Value().(T)` of a looked up property.
abbrev pub as_uint32 : Option Variant → Option ℕ
as_uint32 (some (uint32 n)) = some n
as_uint32 _ = none

abbrev pub as_int32 : Option Variant → Option ℕ
as_int32 (some (int32 n)) = some n
as_int32 _ = none

abbrev pub as_uint64 : Option Variant → Option ℕ
as_uint64 (some (uint64 n)) = some n
as_uint64 _ = none

abbrev pub as_text : Option Variant → String
as_text (some (text s)) = s
as_text _ = ""

-- A failed check ends the decoding.
infixl 5 ◌>>=◌ ◌>>◌
abbrev pub ◌>>=◌ {ℓ κ} : {A : Type ℓ} {B : Type κ} → Option A → (A → Option B) → Option B
none >>= f = none
some a >>= f = f a

abbrev pub ◌>>◌ {ℓ} : {B : Type ℓ} → Option (Unit {0}) → Option B → Option B
m >> k = m >>= λ _. k

abbrev pub check : Bool → Option (Unit {0})
check true = some tt
check false = none

unfoldable pub service_exit_state : Changed → Option PState
service_exit_state changed = do
  pid ← as_uint32 (changed "ExecMainPID")
  check (not (pid == 0))
  status ← as_int32 (changed "ExecMainStatus")
  check (not (int32_negative status))
  si_code ← as_int32 (changed "ExecMainCode")
  exited_at ← as_uint64 (changed "ExecMainExitTimestamp")
  check (not (exited_at == 0))
  some (record {
    exited_at = unix_micro exited_at;
    exit_code = exit_status_for si_code status;
    pid = pid;
    status = "exited";
  })

-- unitevents.go, `unitEventIsExit`.
unfoldable pub unit_event_is_exit : Changed → Bool
unit_event_is_exit changed =
    let s = as_text (changed "ActiveState") in str_eq s "inactive" || str_eq s "failed"
