-- ===== src/Phase.antt =====
-- phase.go: the phases of a process, and the table of legal transitions.
use containerd_shim_systemd.Prelude.{ℕ, Bool, false, ◌||◌, String, List, [], ◌∷◌, ltb, ◌==◌}

-- `iota`: the phases in the order of their numbers.
pub data ProcPhase : Type 0 where
  created starting running exited deleted : ProcPhase

-- The number behind a phase, for `<`.
abbrev pub rank : ProcPhase → ℕ
rank created = 0
rank starting = 1
rank running = 2
rank exited = 3
rank deleted = 4

-- `a == b`.
abbrev pub phase_eq : ProcPhase → ProcPhase → Bool
phase_eq a b = rank a == rank b

-- `a < b`.
abbrev pub phase_lt : ProcPhase → ProcPhase → Bool
phase_lt a b = ltb (rank a) (rank b)

unfoldable pub phase_name : ProcPhase → String
phase_name created = "created"
phase_name starting = "starting"
phase_name running = "running"
phase_name exited = "exited"
phase_name deleted = "deleted"

unfoldable pub phase_transitions : ProcPhase → List ProcPhase
phase_transitions created = created ∷ starting ∷ exited ∷ deleted ∷ []
phase_transitions starting = created ∷ running ∷ exited ∷ deleted ∷ []
phase_transitions running = running ∷ exited ∷ deleted ∷ []
phase_transitions exited = exited ∷ deleted ∷ []
phase_transitions deleted = deleted ∷ []

-- `slices.Contains`.
contains : List ProcPhase → ProcPhase → Bool
contains [] next = false
contains (p ∷ ps) next = phase_eq p next || contains ps next

unfoldable pub can_become : ProcPhase → ProcPhase → Bool
unfolding phase_transitions contains
can_become p next = contains (phase_transitions p) next

-- The error that a rejected transition reports.
pub record InvalidTransitionError : Type 0 where
  pub from : ProcPhase
  pub to : ProcPhase
