-- ===== src/Create/Handoff.antt =====
-- create.go: what `createCmd` does, in order, and what it tells systemd of the states that it writes.
use mathlib.Core.List.{append-nil}
use containerd_shim_systemd.Prelude.{
  str_eq, ℕ, ◌≡◌, refl, ◌⊎◌, inl, inr, Bool, true, false, String, List, [], ◌∷◌, ◌++◌, Option, none,
  some, arith, if◌then◌else◌, Option-cases, Bool-cases,
}
use containerd_shim_systemd.State.{PState}
use containerd_shim_systemd.Create.Helper.{
  workload_state, OpenMode, HelperRun, Notice, HelperAct, opened, becomes_subreaper, runc_started,
  barrier, wrote, told, notify_workload, notify_status, notify_errno, notify_main_pid, ready,
  open_fifo, open_stderr, look_again, hand_off, after_runc, is_success, create_cmd, read_only,
  write_only,
}

-- The states that are written, oldest first, and the notifications.
abbrev pub states_in : List HelperAct → List PState
states_in [] = []
states_in (wrote st ∷ acts) = st ∷ states_in acts
states_in (_ ∷ acts) = states_in acts

abbrev pub notices_in : List HelperAct → List (List Notice)
notices_in [] = []
notices_in (told ns ∷ acts) = ns ∷ notices_in acts
notices_in (_ ∷ acts) = notices_in acts

-- What systemd is to hear of a state: that the main process is up, or how it ended; and which it is.
abbrev pub notices_for : PState → List (List Notice)
notices_for st =
    if str_eq st.status "exited"
    then (notify_status st.status ∷ notify_errno st.exit_code ∷ notify_main_pid st.pid ∷ []) ∷ []
    else if str_eq st.status "running"
    then (ready ∷ notify_main_pid st.pid ∷ []) ∷ []
    else []

abbrev pub notices_of : List PState → List (List Notice)
notices_of [] = []
notices_of (st ∷ sts) = notices_for st ++ notices_of sts

abbrev pub has_started : List HelperAct → Bool
has_started [] = false
has_started (runc_started ∷ acts) = true
has_started (_ ∷ acts) = has_started acts

abbrev pub is_opening : List HelperAct → Bool
is_opening [] = true
is_opening (opened path mode ∷ acts) = is_opening acts
is_opening (becomes_subreaper ∷ acts) = is_opening acts
is_opening (_ ∷ acts) = false

opening-append :
    (xs ys : List HelperAct)
    → is_opening xs ≡ true
    → is_opening ys ≡ true
    → is_opening (xs ++ ys) ≡ true
opening-append [] ys a b = b
opening-append (opened path mode ∷ xs) ys a b = opening-append xs ys a b
opening-append (becomes_subreaper ∷ xs) ys a b = opening-append xs ys a b
opening-append (runc_started ∷ xs) ys a b = absurd (cc)
opening-append (barrier ∷ xs) ys a b = absurd (cc)
opening-append (wrote st ∷ xs) ys a b = absurd (cc)
opening-append (told ns ∷ xs) ys a b = absurd (cc)

-- The openings neither write nor tell of anything, and do not start runc.
pub opening_lem :
    (xs ys : List HelperAct)
    → is_opening xs ≡ true
    → (states_in (xs ++ ys) ≡ states_in ys)
      × (notices_in (xs ++ ys) ≡ notices_in ys)
      × (has_started (xs ++ ys) ≡ has_started ys)
opening_lem [] ys a = (refl, refl, refl)
opening_lem (opened path mode ∷ xs) ys a = opening_lem xs ys a
opening_lem (becomes_subreaper ∷ xs) ys a = opening_lem xs ys a
opening_lem (runc_started ∷ xs) ys a = absurd (cc)
opening_lem (barrier ∷ xs) ys a = absurd (cc)
opening_lem (wrote st ∷ xs) ys a = absurd (cc)
opening_lem (told ns ∷ xs) ys a = absurd (cc)

pub opening-alone :
    (xs : List HelperAct)
    → is_opening xs ≡ true
    → (states_in xs ≡ []) × (notices_in xs ≡ []) × (has_started xs ≡ false)
opening-alone xs a = ground (arith, opening_lem xs [] a, append-nil xs)

open_fifo-opening :
    (r : HelperRun) (path : String) (mode : OpenMode) → is_opening (open_fifo r path mode).0 ≡ true
unfolding open_fifo
open_fifo-opening r path mode = ground arith

open_stderr-opening : (r : HelperRun) (tty : Bool) → is_opening (open_stderr r tty).0 ≡ true
unfolding open_stderr
open_stderr-opening r tty = ground (arith, open_fifo-opening r r.stderr_fifo write_only)

-- Either runc is not started and the command fails, or it goes on after the openings.
pub create_cmd_cases :
    (r : HelperRun) (tty no_reap : Bool)
    → (pre : List HelperAct) × (is_opening pre ≡ true)
      × ((create_cmd r tty no_reap ≡ (pre, false))
          ⊎ (let (acts, st, ok) = after_runc r no_reap in
              create_cmd r tty no_reap ≡ (pre ++ runc_started ∷ acts, is_success st ok)))
unfolding create_cmd
create_cmd_cases r tty no_reap =
    let (ins, in_ok) = open_fifo r r.stdin_fifo read_only in
    let (outs, out_ok) = open_fifo r r.stdout_fifo write_only in
    let (errs, err_ok) = open_stderr r tty in
    let reaps : List HelperAct = if no_reap then [] else becomes_subreaper ∷ [] in
    let i = open_fifo-opening r r.stdin_fifo read_only in
    let o = open_fifo-opening r r.stdout_fifo write_only in
    let e = open_stderr-opening r tty in
    let io = opening-append ins outs i o in
    let oe = opening-append ins (outs ++ errs) i (opening-append outs errs o e) in
    let re : is_opening reaps ≡ true = ground arith in
    let all =
      opening-append ins (outs ++ (errs ++ reaps)) i
        (opening-append outs (errs ++ reaps) o (opening-append errs reaps e re)) in
    elim (Bool-cases in_ok) [
      | inr a ↦ (ins, i, inl (rw (a, create_cmd) refl))
      | inl a ↦ elim (Bool-cases out_ok) [
        | inr b ↦ (ins ++ outs, io, inl (rw (a, b, create_cmd) refl))
        | inl b ↦ elim (Bool-cases err_ok) [
          | inr c ↦ (ins ++ (outs ++ errs), oe, inl (rw (a, b, c, create_cmd) refl))
          | inl c ↦ elim (Bool-cases r.runc_starts) [
            | inr d ↦
                (ins ++ (outs ++ (errs ++ reaps)), all, inl (rw (a, b, c, d, create_cmd) refl))
            | inl d ↦
                (ins ++ (outs ++ (errs ++ reaps)), all, inr (rw (a, b, c, d, create_cmd) refl))
          ]
        ]
      ]
    ]

-- The notifications of a helper whose runc worked are those of the states that it writes.
abbrev IsToldOf : List HelperAct → Type 0
IsToldOf acts = notices_in acts ≡ notices_of (states_in acts)

look_again-IsToldOf : (r : HelperRun) (pid : ℕ) → IsToldOf (look_again r pid).0
unfolding look_again notify_workload workload_state
look_again-IsToldOf r pid = ground arith

hand_off-IsToldOf : (r : HelperRun) (pid : ℕ) (st : Option PState) → IsToldOf (hand_off r pid st).0
unfolding hand_off notify_workload
hand_off-IsToldOf r pid none = refl
hand_off-IsToldOf r pid (some st) = ground (arith, look_again-IsToldOf r pid)

after_runc-IsToldOf :
    (r : HelperRun) (no_reap : Bool) → r.runc_failure ≡ none → IsToldOf (after_runc r no_reap).0
unfolding after_runc
after_runc-IsToldOf r no_reap h = elim (Option-cases r.pid_file) [
  | inl e ↦ rw (h, e, after_runc) refl
  | inr (pid, e) ↦ rw (h, e, after_runc) (hand_off-IsToldOf r pid _)
]

-- Unless runc fails, what systemd is told are the states of the workload that are written to the state
-- file, in their order, and none that could not be written, whatever else fails: a running one as ready
-- with its main process, one that has ended with its code and its main process.
pub create_cmd-told :
    (r : HelperRun) (tty no_reap : Bool)
    → r.runc_failure ≡ none
    → let acts = (create_cmd r tty no_reap).0 in notices_in acts ≡ notices_of (states_in acts)
create_cmd-told r tty no_reap h =
    let (pre, opens, cases) = create_cmd_cases r tty no_reap in
    let (acts, st, ok) = after_runc r no_reap in
    let (states, notices, _) = opening-alone pre opens in
    let (states', notices', _) = opening_lem pre (runc_started ∷ acts) opens in
    elim cases [
      | inl e ↦ rw (e, states, notices) refl
      | inr e ↦ rw (e, states', notices') (after_runc-IsToldOf r no_reap h)
    ]
