-- ===== src/Examples/Queues.antt =====
-- Runs of the work queue of unitworkqueue.go.
use containerd_shim_systemd.Prelude.{
  ◌+◌, ◌*◌, ◌^◌, ◌≡◌, refl, ◌⊎◌, true, false, [], ◌∷◌, arith, min,
}
use containerd_shim_systemd.WorkQueue.{WorkQueue, new_unit_work_queue, add, get, done, handed}
use containerd_shim_systemd.WorkQueue.Backoff.{
  backoff, backoff_wraps, reconcile-backoff, reconcile_retry_base, reconcile_retry_max,
}
use containerd_shim_systemd.WorkQueue.Invariant.{
  IsValid, Reach, here, next, adds, gets, mem, taken, reachable-IsValid,
}
use containerd_shim_systemd.WorkQueue.Progress.{pending, get_exclusive, Step-pending}
use containerd_shim_systemd.WorkQueue.Turns.{queued-handed, HandedIn}

-- Two units are enqueued, the first one twice.
abbrev two_units : WorkQueue
two_units = add (add (add new_unit_work_queue "a") "b") "a"

two_units-reached : Reach new_unit_work_queue two_units
two_units-reached = next (next (next here (adds "a" refl)) (adds "b" refl)) (adds "a" refl)

two_units-queue : two_units.queue ≡ "a" ∷ "b" ∷ []
unfolding add new_unit_work_queue
two_units-queue = refl

-- `Get` hands out the first.
abbrev first_taken : WorkQueue
first_taken = taken two_units "a" ("b" ∷ [])

two_units-get : get two_units ≡ handed "a" first_taken
unfolding get add new_unit_work_queue
two_units-get = refl

reachable-IsValid_example : IsValid two_units
reachable-IsValid_example = reachable-IsValid two_units two_units-reached

get_exclusive_example :
    (two_units.processing "a" ≡ false)
    × (first_taken.processing "a" ≡ true)
    × (mem "a" first_taken.queue ≡ false)
get_exclusive_example = get_exclusive two_units first_taken "a" two_units-reached two_units-get

Step-pending_example : (get two_units ≡ handed "b" first_taken) ⊎ (pending first_taken "b" ≡ true)
Step-pending_example =
    Step-pending two_units first_taken "b" (gets "a" two_units-get)
      (unfold add new_unit_work_queue in refl)

-- The second unit is handed out by the second `Get`.
abbrev both_taken : WorkQueue
both_taken = taken first_taken "b" []

first_taken-get : get first_taken ≡ handed "b" both_taken
unfolding get add new_unit_work_queue
first_taken-get = refl

abbrev two_gets : Reach two_units both_taken
two_gets = next (next here (gets "a" two_units-get)) (gets "b" first_taken-get)

queued-handed_example : HandedIn "b" two_gets
queued-handed_example =
    queued-handed "b" two_gets (unfold add new_unit_work_queue in refl)
      (unfold add new_unit_work_queue in omega arith)

-- A unit taken, added again while it is processed, and done is queued again.
done_again : (done (add first_taken "a") "a").queue ≡ "b" ∷ "a" ∷ []
unfolding done add new_unit_work_queue
done_again = refl

reconcile-backoff_example :
    backoff 5 reconcile_retry_base reconcile_retry_max
    ≡ min (reconcile_retry_base * 2 ^ 5) reconcile_retry_max
reconcile-backoff_example = reconcile-backoff 5 (omega arith)

-- A base of 18 minutes, doubled 24 times, waits as long as one of a nanosecond: 17 milliseconds.
backoff_wraps_example :
    backoff 24 (1 * 1099511627776 + 1) 9000000000000000000 ≡ backoff 24 1 9000000000000000000
backoff_wraps_example =
    backoff_wraps 24 1 1099511627776 1 9000000000000000000 (omega arith) refl (omega arith)
