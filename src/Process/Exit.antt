-- ===== src/Process/Exit.antt =====
-- process.go: one exit for a process, one start attempt at a time, and no way back from an exit.
use containerd_shim_systemd.Prelude.{
  ℕ, ◌+◌, ◌≤◌, ◌≡◌, ◌≢◌, ap, ◌⊎◌, inl, inr, true, arith, none, if◌then◌else◌,
}
use containerd_shim_systemd.Phase.{ProcPhase, created, starting, exited, deleted, rank, can_become}
use containerd_shim_systemd.State.{PState, has_exited}
use containerd_shim_systemd.State.Merge.{exited-copy_to}
use containerd_shim_systemd.Process.{
  Process, advance, begin_start, abort_start, record_systemd_exit_state,
  clear_recorded_systemd_exit_state, mark_deleting, set_pid, just_exited, observed, apply_state,
}
use containerd_shim_systemd.Process.Lifecycle.{
  apply_state_lem, apply_state-phases, is_past, Step, begins, aborts, finishes, deletes, observes,
  records, clears, marks, sets_pid, sends, Reach, here, next, exited-observed,
}

-- 1 for a phase that is past the workload.
abbrev pub past : ProcPhase → ℕ
past p = if is_past p then 1 else 0

-- 1 for a call whose caller is told that the process has just exited, and so publishes its exit.
abbrev pub exits_by : {p q : Process} → Step p q → ℕ
exits_by {p} (observes now st e) = if just_exited (apply_state now p st).1 then 1 else 0
exits_by _ = 0

-- The three phases of an observation, for its count of exits.
pub apply_state-count :
    (now : ℕ) (p : Process) (st : PState)
    → let r = apply_state now p st in
      let n : ℕ = if just_exited r.1 then 1 else 0 in
      (n + past p.phase ≡ past r.0.phase) × (p.phase ≡ deleted → r.0.phase ≡ deleted)
unfolding just_exited
apply_state-count now p st =
    ground
      (arith, apply_state-phases now p st, ap (λ (q : Process). q.phase) (apply_state_lem now p st))

pub Step-count :
    (p q : Process) (st : Step p q)
    → (exits_by st + past p.phase ≤ past q.phase)
      × (q.phase ≡ exited → exits_by st + past p.phase ≡ 1)
      × (p.phase ≡ deleted → q.phase ≡ deleted)
unfolding begin_start abort_start advance can_become record_systemd_exit_state
    clear_recorded_systemd_exit_state mark_deleting set_pid
Step-count p q (begins e) = ground arith
Step-count p q (aborts e) = ground arith
Step-count p q (finishes e) = ground arith
Step-count p q (deletes e) = ground arith
Step-count p q (observes now st e) = ground (arith, apply_state-count now p st)
Step-count p q (records st e) = ground arith
Step-count p q (clears e) = ground arith
Step-count p q (marks e) = ground arith
Step-count p q (sets_pid pid e) = ground arith
Step-count p q (sends o e) = ground arith

pub past-le_one : (p : ProcPhase) → past p ≤ 1
past-le_one p = ground arith

-- A terminal observation of a process that is not deleted ends it, and from then on its state stays
-- terminal.
pub observed-exits :
    (now : ℕ) (p : Process) (st : PState)
    → has_exited st ≡ true
    → p.phase ≢ deleted
    → let q = (apply_state now p st).0 in (q.phase ≡ exited) × (has_exited q.state ≡ true)
observed-exits now p st h n = ground (
  arith,
  ap (λ (q : Process). q.phase) (apply_state_lem now p st),
  ap (λ (q : Process). has_exited q.state) (apply_state_lem now p st),
  exited-copy_to (observed p.phase st) p.state,
  exited-observed p.phase st,
)

-- The call takes a start attempt back.
abbrev pub IsAbort : {p q : Process} → Step p q → Type 0
IsAbort (aborts e) = Unit
IsAbort _ = ⊥

abbrev pub HasAbort : {p q : Process} → Reach p q → Type 0
HasAbort here = ⊥
HasAbort (next r st) = HasAbort r ⊎ IsAbort st

Step-claimed :
    (p q : Process) (st : Step p q) → p.phase ≢ created → IsAbort st ⊎ (q.phase ≢ created)
unfolding begin_start abort_start advance can_become record_systemd_exit_state
    clear_recorded_systemd_exit_state mark_deleting set_pid
Step-claimed p q (begins e) h = inr (ground arith)
Step-claimed p q (aborts e) h = inl tt
Step-claimed p q (finishes e) h = inr (ground arith)
Step-claimed p q (deletes e) h = inr (ground arith)
Step-claimed p q (observes now st e) h =
    inr (ground (arith, ap (λ (q : Process). q.phase) (apply_state_lem now p st)))
Step-claimed p q (records st e) h = inr (ground arith)
Step-claimed p q (clears e) h = inr (ground arith)
Step-claimed p q (marks e) h = inr (ground arith)
Step-claimed p q (sets_pid pid e) h = inr (ground arith)
Step-claimed p q (sends o e) h = inr (ground arith)

Reach-claimed :
    {p q : Process} (r : Reach p q) → p.phase ≢ created → HasAbort r ⊎ (q.phase ≢ created)
Reach-claimed here h = inr h
Reach-claimed (next {q = m} {r = q} r st) h = elim (Reach-claimed r h) [
  | inl a ↦ inl (inl a)
  | inr k ↦ elim (Step-claimed m q st k) [ inl a ↦ inl (inr a) | inr k' ↦ inr k' ]
]

-- `beginStart` is granted only to a created process, and leaves one that is starting.
pub begin_start-granted :
    (p : Process)
    → (begin_start p).1 ≡ none
    → (p.phase ≡ created) × ((begin_start p).0.phase ≡ starting)
unfolding begin_start advance can_become
begin_start-granted p h = ground arith

-- If a start of a process is granted, and another one is granted after any calls of its locked
-- methods, then a start was aborted between the two.
pub start_exclusive :
    (p q : Process) (r : Reach (begin_start p).0 q)
    → (begin_start p).1 ≡ none
    → (begin_start q).1 ≡ none
    → HasAbort r
start_exclusive p q r h k =
    let held = (begin_start-granted p h).1 in
    elim (Reach-claimed r (ground arith)) [
      | inl a ↦ a
      | inr n ↦ absurd (n (begin_start-granted q k).0)
    ]

Step-past : (p q : Process) → Step p q → is_past p.phase ≡ true → is_past q.phase ≡ true
Step-past p q st h = ground (arith, Step-count p q st)

Reach-past : {p q : Process} → Reach p q → is_past p.phase ≡ true → is_past q.phase ≡ true
Reach-past here h = h
Reach-past (next {q = m} {r = q} r st) h = Step-past m q st (Reach-past r h)

Reach-deleted : {p q : Process} → Reach p q → p.phase ≡ deleted → q.phase ≡ deleted
Reach-deleted here h = h
Reach-deleted (next {q = m} {r = q} r st) h = (Step-count m q st).2 (Reach-deleted r h)

Reach-rank : {p q : Process} → Reach p q → is_past p.phase ≡ true → rank p.phase ≤ rank q.phase
Reach-rank {p} {q} r h = ground (arith, Reach-past r h, Reach-deleted r)

-- An ended process never starts again, whatever is called, and its phase never goes back.
pub no_way_back :
    (p q : Process)
    → Reach p q
    → is_past p.phase ≡ true
    → ((begin_start q).1 ≢ none) × (rank p.phase ≤ rank q.phase)
no_way_back p q r h =
    (λ granted. ground (arith, begin_start-granted q granted, Reach-past r h), Reach-rank r h)
