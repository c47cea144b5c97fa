-- ===== src/State/Merge.antt =====
-- state.go, `CopyTo`: what a merge keeps and what it adds.
use containerd_shim_systemd.Prelude.{
  ◌<◌, ◌⊎◌, ◌≡◌, refl, ◌||◌, true, false, String, arith, str_eq, str_eq_iff, ltb,
}
use containerd_shim_systemd.State.{
  PState, has_exited, copy_to, copy_exited_at, copy_exit_code, copy_pid, copy_status,
}
use containerd_shim_systemd.State.Time.{time_zero, after}
use containerd_shim_systemd.State.Status.{to_status, is_stopped}

-- The empty status, which no observation has, is not one of a stopped task.
pub empty-not_stopped : (s : String) → str_eq s "" ≡ true → is_stopped (to_status s) ≡ false
empty-not_stopped s h = rw ((str_eq_iff s "").0 h) (unfold to_status in refl)

exited-copy_exited_at :
    (s other : PState)
    → has_exited (copy_exited_at s other) ≡ (has_exited other || after s.exited_at time_zero)
unfolding copy_exited_at has_exited
exited-copy_exited_at s other = ground arith

exited-copy_exit_code :
    (s other : PState)
    → has_exited (copy_exit_code s other) ≡ (has_exited other || ltb 0 s.exit_code)
unfolding copy_exit_code has_exited
exited-copy_exit_code s other = ground arith

exited-copy_pid : (s other : PState) → has_exited (copy_pid s other) ≡ has_exited other
unfolding copy_pid has_exited
exited-copy_pid s other = ground arith

-- Once the code and the time are copied, the status is merged without losing an exit.
exited-copy_status :
    (s other : PState)
    → (ltb 0 s.exit_code ≡ true → ltb 0 other.exit_code ≡ true)
    → (after s.exited_at time_zero ≡ true → after other.exited_at time_zero ≡ true)
    → has_exited (copy_status s other) ≡ (has_exited other || has_exited s)
unfolding copy_status has_exited
exited-copy_status s other h k = ground (arith, empty-not_stopped s.status)

code-copied :
    (s other : PState)
    → ltb 0 s.exit_code ≡ true
    → ltb 0 (copy_pid s (copy_exit_code s (copy_exited_at s other))).exit_code ≡ true
unfolding copy_pid copy_exit_code copy_exited_at
code-copied s other h = ground arith

time-copied :
    (s other : PState)
    → after s.exited_at time_zero ≡ true
    → after (copy_pid s (copy_exit_code s (copy_exited_at s other))).exited_at time_zero ≡ true
unfolding copy_pid copy_exit_code copy_exited_at
time-copied s other h = ground arith

-- The parts that a terminal state is told by.
exited-parts :
    (s other : PState)
    → (((has_exited other || after s.exited_at time_zero) || ltb 0 s.exit_code) || has_exited s)
      ≡ (has_exited other || has_exited s)
unfolding has_exited
exited-parts s other = ground arith

-- A merged state is terminal exactly when one of the two was.
pub exited-copy_to :
    (s other : PState) → has_exited (copy_to s other) ≡ (has_exited other || has_exited s)
unfolding copy_to
exited-copy_to s other =
    let mid = copy_pid s (copy_exit_code s (copy_exited_at s other)) in
    ground (
      arith,
      exited-copy_status s mid (code-copied s other) (time-copied s other),
      exited-copy_pid s (copy_exit_code s (copy_exited_at s other)),
      exited-copy_exit_code s (copy_exited_at s other),
      exited-copy_exited_at s other,
      exited-parts s other,
    )

exited_at-kept :
    (s other : PState)
    → ((copy_exited_at s other).exit_code ≡ other.exit_code)
      × (after other.exited_at time_zero ≡ true
          → (copy_exited_at s other).exited_at ≡ other.exited_at)
unfolding copy_exited_at
exited_at-kept s other = ground arith

exit_code-kept :
    (s other : PState)
    → (0 < other.exit_code → (copy_exit_code s other).exit_code ≡ other.exit_code)
      × ((copy_exit_code s other).exited_at ≡ other.exited_at)
unfolding copy_exit_code
exit_code-kept s other = ground arith

pid-kept :
    (s other : PState)
    → ((copy_pid s other).exit_code ≡ other.exit_code)
      × ((copy_pid s other).exited_at ≡ other.exited_at)
      × ((copy_pid s other).status ≡ other.status)
unfolding copy_pid
pid-kept s other = ground arith

status-kept :
    (s other : PState)
    → ((copy_status s other).exit_code ≡ other.exit_code)
      × ((copy_status s other).exited_at ≡ other.exited_at)
unfolding copy_status
status-kept s other = ground arith

-- A merge keeps an exit code and an exit time that are there, and takes the status of one of the two.
pub copy_to-kept :
    (s other : PState)
    → (0 < other.exit_code → (copy_to s other).exit_code ≡ other.exit_code)
      × (after other.exited_at time_zero ≡ true → (copy_to s other).exited_at ≡ other.exited_at)
unfolding copy_to
copy_to-kept s other =
    let timed = copy_exited_at s other in
    let coded = copy_exit_code s timed in
    let a = exited_at-kept s other in
    let b = exit_code-kept s timed in
    let c = pid-kept s coded in
    let d = status-kept s (copy_pid s coded) in
    (λ h. ground (arith, a, b, c, d, h), λ h. ground (arith, a, b, c, d, h))

status-taken :
    (s other : PState)
    → ((copy_status s other).status ≡ other.status) ⊎ ((copy_status s other).status ≡ s.status)
unfolding copy_status
status-taken s other = ground arith

earlier-status :
    (s other : PState)
    → ((copy_exited_at s other).status ≡ other.status)
      × ((copy_exit_code s other).status ≡ other.status)
unfolding copy_exited_at copy_exit_code
earlier-status s other = ground arith

pub copy_to-status :
    (s other : PState)
    → ((copy_to s other).status ≡ other.status) ⊎ ((copy_to s other).status ≡ s.status)
unfolding copy_to
copy_to-status s other =
    let timed = copy_exited_at s other in
    let coded = copy_exit_code s timed in
    ground (
      arith,
      (earlier-status s other).0,
      (earlier-status s timed).1,
      pid-kept s coded,
      status-taken s (copy_pid s coded),
    )
