-- ===== src/Boot/Open.antt =====
-- manager.go: the connections of the service, from `New` to `Close`.
use Prim.Native.String.{◌++◌ as text_append}
use containerd_shim_systemd.Prelude.{
  ◌≡◌, Bool, true, false, not, String, List, [], ◌∷◌, ◌++◌, Option, none, some, arith,
  if◌then◌else◌,
}

-- The connections to systemd: the private one, and the one of the message bus that pins units.
pub data Bus : Type 0 where
  private_bus pin_bus : Bus

pub data BusEvent : Type 0 where
  opened closed : Bus → BusEvent

-- What is asked of the buses and of the system. Nothing is assumed of the answers.
pub record Buses : Type 1 where
  pub World : Type 0
  pub dial_private : World → Bool × World
  -- `newPinConnection`: a connection that go-systemd makes over dials of the message bus, which closes
  -- what it dialed where it fails.
  pub dial_pin : World → Bool × World
  pub look_path_runc : World → Option String
  -- `os.Executable`, or the first argument of the program.
  pub executable : World → String
  pub mkdir_all : World → String → Bool × World

-- What `New` makes, as far as it is not the configuration.
pub record OpenService : Type 0 where
  pub runc_bin : String
  pub exe : String
  pub runc_root : String
  pub is_pinned : Bool

module _ (b : Buses) where
  open b use {World}

  -- `newServiceWithConfig`; `none` is an error.
  unfoldable pub new_service_with_config :
      World → String → String → String → Bool → Option OpenService × World
  new_service_with_config w root runc_bin exe is_pinned =
      let runc_root = text_append root "/runc" in
      let (made, w1) = b.mkdir_all w runc_root in
      let s : OpenService = record {
        runc_bin = runc_bin;
        exe = exe;
        runc_root = runc_root;
        is_pinned = is_pinned;
      } in
      (if made then some s else none, w1)

  abbrev pin_opened : Bool → List BusEvent
  pin_opened is_pinned = if is_pinned then opened pin_bus ∷ [] else []

  abbrev pin_closed : Bool → List BusEvent
  pin_closed is_pinned = if is_pinned then closed pin_bus ∷ [] else []

  -- `New` once runc is found.
  unfoldable pub open_with : World → String → String → Option OpenService × List BusEvent × World
  open_with w root runc_bin =
      let (is_pinned, w1) = b.dial_pin w in
      let (made, w2) = new_service_with_config w1 root runc_bin (b.executable w) is_pinned in
      let log = opened private_bus ∷ pin_opened is_pinned in
      elim made [
        | none ↦ (none, log ++ closed private_bus ∷ pin_closed is_pinned, w2)
        | some s ↦ (some s, log, w2)
      ]

  -- `New`: the service, what was done to the connections, and the world.
  unfoldable pub open_service : World → String → Option OpenService × List BusEvent × World
  open_service w root =
      let (dialed, w1) = b.dial_private w in
      if not dialed then (none, [], w1) else elim (b.look_path_runc w1) [
        | none ↦ (none, opened private_bus ∷ closed private_bus ∷ [], w1)
        | some runc_bin ↦ open_with w1 root runc_bin
      ]

  -- `Service.Close`, as far as it closes connections.
  unfoldable pub close_service : OpenService → List BusEvent
  close_service s = closed private_bus ∷ pin_closed s.is_pinned

  -- Which connections are open after some events: the private one, and the pin.
  abbrev pub open_after : Bool × Bool → List BusEvent → Bool × Bool
  open_after is_open [] = is_open
  open_after (private, pin) (opened private_bus ∷ es) = open_after (true, pin) es
  open_after (private, pin) (closed private_bus ∷ es) = open_after (false, pin) es
  open_after (private, pin) (opened pin_bus ∷ es) = open_after (private, true) es
  open_after (private, pin) (closed pin_bus ∷ es) = open_after (private, false) es

  -- What is left open after `New`, and after a `Close` of what it returned.
  abbrev pub left_open : Option OpenService → List BusEvent → Bool × Bool
  left_open none log = open_after (false, false) log
  left_open (some s) log = open_after (false, false) (log ++ close_service s)

  -- No connection leaks: where `New` fails, whatever it is that fails, it has closed each connection
  -- that it opened, and where it succeeds `Close` closes them.
  pub open_service-closed :
      (w : World) (root : String)
      → let (s, log, w') = open_service w root in left_open s log ≡ (false, false)
  unfolding open_service open_with new_service_with_config close_service
  open_service-closed w root = ground arith
