-- ===== src/WorkQueue.antt =====
-- unitworkqueue.go: the queue of systemd units to reconcile. A method takes its lock for all of its
-- body, so it is one step; a goroutine that `AddAfter` leaves waiting is an entry of `timers`.
pub mod Backoff
pub mod Invariant
pub mod Progress
pub mod Retries
pub mod Turns
use containerd_shim_systemd.Prelude.{
  ℕ, ◌+◌, Bool, true, false, ◌||◌, not, String, List, [], ◌∷◌, ◌++◌, str_eq, if◌then◌else◌, ltb,
  leb,
}
use Backoff.{backoff, is_positive}

pub record WorkQueue : Type 0 where
  pub queue : List String
  pub dirty : String → Bool
  pub processing : String → Bool
  pub failures : String → ℕ  -- a missing key reads as 0
  pub shutdown : Bool
  pub timers : List (String × ℕ)

-- `m[name] = struct{}{}` and `delete(m, name)` on the sets.
abbrev pub with_name : (String → Bool) → String → String → Bool
with_name m name n = if str_eq n name then true else m n

abbrev pub without_name : (String → Bool) → String → String → Bool
without_name m name n = if str_eq n name then false else m n

-- `m[name] = k`, and with 0 `delete(m, name)`, on the counts.
abbrev pub with_count : (String → ℕ) → String → ℕ → String → ℕ
with_count m name k n = if str_eq n name then k else m n

unfoldable pub new_unit_work_queue : WorkQueue
new_unit_work_queue = record {
  queue = [];
  dirty = λ n. false;
  processing = λ n. false;
  failures = λ n. 0;
  shutdown = false;
  timers = [];
}

unfoldable pub add : WorkQueue → String → WorkQueue
add q name =
    let marked = record q { dirty = with_name q.dirty name } in
    if q.shutdown
    then q
    else if q.dirty name
    then q
    else if q.processing name
    then marked
    else record marked { queue = q.queue ++ name ∷ [] }

unfoldable pub add_after : WorkQueue → String → ℕ → WorkQueue
unfolding add
add_after q name delay =
    if not (is_positive delay) then add q name else record q { timers = (name, delay) ∷ q.timers }

-- What a waiting goroutine of `AddAfter` does: its timer runs out first, or the shutdown does.
unfoldable pub timer_fires : WorkQueue → String → List (String × ℕ) → WorkQueue
unfolding add
timer_fires q name rest = add (record q { timers = rest }) name

unfoldable pub timer_abandoned : WorkQueue → List (String × ℕ) → WorkQueue
timer_abandoned q rest = record q { timers = rest }

unfoldable pub retry : WorkQueue → String → ℕ → ℕ → ℕ → WorkQueue × Bool
unfolding add_after
retry q name max_retries base max =
    let attempts = q.failures name in
    let counted = record q { failures = with_count q.failures name (attempts + 1) } in
    if q.shutdown
    then (q, false)
    else if leb max_retries attempts
    then (q, false)
    else (add_after counted name (backoff attempts base max), true)

unfoldable pub forget : WorkQueue → String → WorkQueue
forget q name = record q { failures = with_count q.failures name 0 }

-- `Get` waits, reports the shutdown, or hands out a name.
pub data GetResult : Type 0 where
  waits : GetResult
  shut_down : GetResult
  handed : String → WorkQueue → GetResult

take_first : WorkQueue → List String → GetResult
take_first q [] = if q.shutdown then shut_down else waits
take_first q (name ∷ rest) = handed name (record q {
  queue = rest;
  dirty = without_name q.dirty name;
  processing = with_name q.processing name;
})

unfoldable pub get : WorkQueue → GetResult
unfolding take_first
get q = take_first q q.queue

unfoldable pub done : WorkQueue → String → WorkQueue
done q name =
    let idle = record q { processing = without_name q.processing name } in
    if q.dirty name then record idle { queue = q.queue ++ name ∷ [] } else idle

unfoldable pub shut_down_queue : WorkQueue → WorkQueue
shut_down_queue q = record q { shutdown = true }
