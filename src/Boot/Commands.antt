-- ===== src/Boot/Commands.antt =====
-- main.go, runtime_info.go, mount.go and log.go: the commands of the program that do not serve.
use Prim.Native.String.{◌++◌ as text_append}
use containerd_shim_systemd.Prelude.{
  ℕ, Bool, true, false, not, ◌&&◌, ◌||◌, String, List, [], Option, none, some, str_eq,
  if◌then◌else◌,
}
use containerd_shim_systemd.State.{PState}
use containerd_shim_systemd.Outside.{Outside}
use containerd_shim_systemd.Task.{Shim}
use containerd_shim_systemd.Teardown.{Outcome, ok}
use containerd_shim_systemd.Registry.{Registry}
use containerd_shim_systemd.Wait.{Wake}
use containerd_shim_systemd.Requests.{delete_request}
use containerd_shim_systemd.Launch.Options.{DecodedOptions, runc_options}

-- `BootstrapParams`, as far as they are read.
pub record BootstrapParams : Type 0 where
  pub instance_id : String
  pub namespace : String

-- What `writeBootstrapResponse` writes: the address, also in a file, or a result of version 3 with it.
pub data BootstrapResponse : Type 0 where
  address_only : String → BootstrapResponse
  bootstrap_result : (version : ℕ) (address protocol : String) → BootstrapResponse

abbrev names_task : String → String → Option BootstrapParams → Bool
names_task id namespace none = false
names_task id namespace (some params) =
    str_eq params.instance_id id && str_eq params.namespace namespace

-- `writeBootstrapResponse`, where everything can be read and written; `params` is what the input
-- decodes to.
unfoldable pub bootstrap_response :
    (is_empty : Bool) → Option BootstrapParams → String → String → String → BootstrapResponse
bootstrap_response is_empty params socket id namespace =
    let address = text_append "unix://" socket in
    if is_empty || not (names_task id namespace params)
    then address_only address
    else bootstrap_result 3 address "ttrpc"

-- What the commands ask of the system. Nothing is assumed of the answers.
pub record Commands (W : Type 0) : Type 0 where
  pub look_path : String → Option String
  -- `runc features`, and what `json.Unmarshal` makes of it.
  pub runc_features : W → String → Option String
  pub is_features : String → Bool
  -- The mount configuration in a file: the mounts and the bundle.
  pub read_mounts : W → String → Option (List (String × String × List String) × String)
  -- `os.Mkdir`: made or there already, or an error.
  pub mkdir : W → String → Bool × W
  pub mount_all : W → List (String × String × List String) → String → Bool × W
  pub unmount_all : W → String → W
  pub remove_bundle : W → String → W
  -- The opening of a log: `some true` is a log, `some false` one that is not there.
  pub open_log : W → String → Option Bool
  pub mkfifo : W → String → Bool × W
  pub remove_log : W → String → W

-- `RuntimeInfo`, with the name of the shim.
pub record RuntimeInfo : Type 0 where
  pub name : String
  pub options : Option DecodedOptions
  pub features : String

-- The binary that the options name.
unfoldable pub info_command : Option DecodedOptions → String
info_command (some (runc_options v)) = if str_eq v.binary_name "" then "runc" else v.binary_name
info_command _ = "runc"

module _ {W : Type 0} (c : Commands W) where
  -- `writeRuntimeInfo`, once the options are decoded.
  unfoldable pub runtime_info : W → Option DecodedOptions → Option RuntimeInfo
  runtime_info w options = elim (c.look_path (info_command options)) [
    | none ↦ none
    | some path ↦ elim (c.runc_features w path) [
      | none ↦ none
      | some features ↦
          if c.is_features features
          then some
              (record { name = "io.containerd.systemd.v1"; options = options; features = features })
          else none
    ]
  ]

  -- `mountFS`.
  unfoldable pub mount_fs : W → List (String × String × List String) → String → Bool × W
  mount_fs w mounts bundle =
      let rootfs = text_append bundle "/rootfs" in
      let (made, w1) = c.mkdir w rootfs in
      if made then c.mount_all w1 mounts rootfs else (false, w1)

  -- `mountRootfs`.
  unfoldable pub mount_rootfs : W → String → Bool × W
  mount_rootfs w config_path = elim (c.read_mounts w config_path) [
    | none ↦ (false, w)
    | some (mounts, bundle) ↦ mount_fs w mounts bundle
  ]

  -- `OpenShimLog`: whether it is a log, and not discarded.
  unfoldable pub open_shim_log : W → String → Bool × W
  open_shim_log w bundle =
      let path = text_append bundle "/log" in
      let (made, w1) = c.mkfifo w path in
      elim (c.open_log w path) [
        | none ↦ (false, w)
        | some true ↦ (true, w)
        | some false ↦ if not made then (false, w1) else elim (c.open_log w1 path) [
          | some true ↦ (true, w1)
          | _ ↦ (false, c.remove_log w1 path)
        ]
      ]

-- `setupLogFormat`: the formatter that is set, if one is.
unfoldable pub log_format : String → Option String
log_format format =
    let chosen = if str_eq format "" then "text" else format in
    if str_eq chosen "text" || str_eq chosen "json" then some chosen else none

module _ (o : Outside) (c : Commands (o.World)) where
  open o use {World}

  -- A service that was just made, with what the shim did so far.
  unfoldable pub new_registry : Shim World → Registry World
  new_registry s = record { shim = s; processes = []; units = []; dropped = [] }

  abbrev answer_of : Option (Outcome PState) → Option (Option PState)
  answer_of none = some none
  answer_of (some (ok st)) = some (some st)
  answer_of (some _) = none

  -- The `delete` command of a bundle: a new service is asked to delete the container; one that is not
  -- there is no error. The bundle is unmounted and removed whatever happens. `none` is an error, and
  -- `some none` the empty answer.
  unfoldable pub delete_command :
      Bool → List Wake → Shim World → String → String → Shim World × Option (Option PState)
  delete_command opens wakes s bundle key =
      let (r, answer) = delete_request o wakes (new_registry s) key "" in
      let drop : Shim World → Shim World = λ t. record t {
        world = c.remove_bundle (c.unmount_all t.world (text_append bundle "/rootfs")) bundle;
      } in
      if str_eq bundle ""
      then (s, some none)
      else if not opens
      then (drop s, none)
      else (drop r.shim, answer_of answer)
