-- ===== src/Launch/Mounted.antt =====
-- start.go and pty.go: what the units are asked to do.
use Prim.Native.String.{◌++◌ as text_append}
use containerd_shim_systemd.Prelude.{
  ◌≡◌, refl, Bool, true, false, not, ◌||◌, ◌&&◌, String, List, [], ◌∷◌, ◌++◌, arith, str_eq,
  if◌then◌else◌,
}
use containerd_shim_systemd.Launch.Options.{default_options}
use containerd_shim_systemd.Launch.Properties.{
  Setup, InitSetup, ExecSetup, ExecCommand, Property, PropertyValue, commands, switch,
  exec_start_properties, tty_service_properties, runc_cmd, format_bool, prop_exec_command,
}
use containerd_shim_systemd.Launch.Setup.{ServiceSetup, ExecRequest, exec_setup}

-- Whether there is a property of the name.
abbrev pub has_property : String → List Property → Bool
has_property name [] = false
has_property name (p ∷ ps) = str_eq p.name name || has_property name ps

-- No name is given twice.
abbrev pub is_distinct : List Property → Bool
is_distinct [] = true
is_distinct (p ∷ ps) = not (has_property p.name ps) && is_distinct ps

abbrev args_of : List ExecCommand → List (List String)
args_of [] = []
args_of (c ∷ cs) = c.args ∷ args_of cs

abbrev args_in : PropertyValue → List (List String)
args_in (commands cs) = args_of cs
args_in _ = []

-- The command lines that a property has the unit run.
abbrev pub commands_of : String → List Property → List (List String)
commands_of name [] = []
commands_of name (p ∷ ps) =
    if str_eq p.name name then args_in p.value ++ commands_of name ps else commands_of name ps

-- What follows `create` and the three words before it in the command of a unit.
abbrev pub behind_create : List (List String) → List String
behind_create ((exe ∷ debug ∷ bundle ∷ create ∷ rest) ∷ []) = rest
behind_create _ = []

-- Whether the unit has mounts of its own.
abbrev pub has_private_mounts : List Property → Bool
has_private_mounts [] = false
has_private_mounts (p ∷ ps) =
    (str_eq p.name "PrivateMounts" && elim p.value [ switch on ↦ on | _ ↦ false ])
    || has_private_mounts ps

-- No property of the unit of an exec, or of a terminal, is given twice.
pub other-distinct :
    (p : ExecSetup) (q : Setup) (tty_sock log_path : String)
    → (is_distinct (exec_start_properties p tty_sock) ≡ true)
      × (is_distinct (tty_service_properties q tty_sock log_path) ≡ true)
unfolding exec_start_properties tty_service_properties prop_exec_command
other-distinct p q tty_sock log_path = (refl, ground arith)

-- runc runs an exec by the binary and in the root of its container, with no cgroup driver of systemd
-- whatever the container was created with.
pub exec_setup-runc_cmd :
    (s : ServiceSetup) (parent : InitSetup) (q : ExecRequest) (cmd : List String)
    → runc_cmd (exec_setup s parent q).base cmd
      ≡ (parent.base.runc.command
          ∷ text_append "--debug=" (format_bool s.debug)
          ∷ "--systemd-cgroup=false"
          ∷ "--root"
          ∷ parent.base.runc.root
          ∷ [])
        ++ ((if s.debug then "--log" ∷ (exec_setup s parent q).base.runc.log ∷ [] else []) ++ cmd)
unfolding runc_cmd exec_setup default_options format_bool
exec_setup-runc_cmd s parent q cmd = refl
