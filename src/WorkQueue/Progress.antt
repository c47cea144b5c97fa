-- ===== src/WorkQueue/Progress.antt =====
-- unitworkqueue.go: one worker for a unit at a time, no update lost, and each queued unit in its turn.
use containerd_shim_systemd.Prelude.{
  ℕ, ◌≡◌, ◌⊎◌, inl, inr, Bool, true, false, ◌||◌, ◌&&◌, String, [], ◌∷◌, str_eq_iff, str_eq_refl,
  arith, ap, subst,
}
use containerd_shim_systemd.WorkQueue.{
  WorkQueue, new_unit_work_queue, add, add_after, timer_fires, timer_abandoned, forget, handed, get,
  done, shut_down_queue,
}
use containerd_shim_systemd.WorkQueue.Backoff.{backoff}
use containerd_shim_systemd.WorkQueue.Invariant.{
  mem, mem-append, IsDistinct, get-handed, counted, retry_cases, Step, adds, retries, forgets, gets,
  dones, fires, abandons, shuts, Reach, reachable-IsValid,
}

-- In a queue that any calls lead to, of which `Done` is called only for a name that is being processed,
-- as a worker calls it for the one that `Get` handed to it: a name that `Get` hands out was not being
-- processed; after it, the name is being processed and is not queued.
pub get_exclusive :
    (q q' : WorkQueue) (name : String)
    → Reach new_unit_work_queue q
    → get q ≡ handed name q'
    → (q.processing name ≡ false) × (q'.processing name ≡ true) × (mem name q'.queue ≡ false)
get_exclusive q q' name r h =
    let v = reachable-IsValid q r in
    let (rest, e, e') = get-handed q h in
    let first : mem name q.queue ≡ true = rw e (ground (arith, str_eq_refl name)) in
    let d : (mem name rest ≡ false) × _ = subst IsDistinct e v.distinct in
    ((v.coherent name).queued_idle first, rw e' (ground (arith, str_eq_refl name)), rw e' d.0)

-- A change to the unit is still to be looked at.
abbrev pub pending : WorkQueue → String → Bool
pending q n = mem n q.queue || (q.processing n && q.dirty n)

-- An `Add` before the shutdown leaves the unit to be looked at.
pub add-pending :
    (q : WorkQueue) (name : String)
    → Reach new_unit_work_queue q
    → q.shutdown ≡ false
    → pending (add q name) name ≡ true
unfolding add
add-pending q name r open_ =
    let c = (reachable-IsValid q r).coherent name in
    ground (arith, mem-append name q.queue (name ∷ []), str_eq_refl name)

pub add_keeps :
    (q : WorkQueue) (name n : String) → pending q n ≡ true → pending (add q name) n ≡ true
unfolding add
add_keeps q name n h = ground (arith, mem-append n q.queue (name ∷ []))

done_keeps : (q : WorkQueue) (name n : String) → pending q n ≡ true → pending (done q name) n ≡ true
unfolding done
done_keeps q name n h =
    ground (arith, mem-append n q.queue (name ∷ []), str_eq_iff n name, str_eq_refl name)

add_after_keeps :
    (q : WorkQueue) (name : String) (delay : ℕ) (n : String)
    → pending q n ≡ true
    → pending (add_after q name delay) n ≡ true
unfolding add_after
add_after_keeps q name delay n h = ground (arith, add_keeps q name n)

pub get_keeps :
    (q q' : WorkQueue) (name n : String)
    → get q ≡ handed name q'
    → pending q n ≡ true
    → (name ≡ n) ⊎ (pending q' n ≡ true)
get_keeps q q' name n h p =
    let (rest, e, e') = get-handed q h in rw e' (ground (arith, ap (mem n) e, str_eq_iff n name))

-- A call that neither hands a unit out nor shuts the queue down.
abbrev pub IsKept : {q q' : WorkQueue} → Step q q' → Type 0
IsKept (gets name h) = ⊥
IsKept (shuts e) = ⊥
IsKept _ = Unit

pub Step-kept :
    (q q' : WorkQueue) (n : String) (st : Step q q')
    → IsKept st
    → pending q n ≡ true
    → pending q' n ≡ true
unfolding forget timer_fires timer_abandoned
Step-kept q q' n (adds name e) k p = rw e (add_keeps q name n p)
Step-kept q q' n (retries name m base max e) k p = elim (retry_cases q name m base max) [
  | inl (e', _) ↦ rw (e, e') p
  | inr (e', _, _) ↦
      rw (e, e') (add_after_keeps (counted q name) name (backoff (q.failures name) base max) n p)
]
Step-kept q q' n (forgets name e) k p = rw e p
Step-kept q q' n (gets name h) k p = absurd k
Step-kept q q' n (dones name d e) k p = rw e (done_keeps q name n p)
Step-kept q q' n (fires name t e) k p = rw e (add_keeps (record q { timers = t }) name n p)
Step-kept q q' n (abandons t e) k p = rw e p
Step-kept q q' n (shuts e) k p = absurd k

-- After any call, a unit that had a change to be looked at still has it, unless the call is the `Get`
-- that hands this unit out.
pub Step-pending :
    (q q' : WorkQueue) (n : String)
    → Step q q'
    → pending q n ≡ true
    → (get q ≡ handed n q') ⊎ (pending q' n ≡ true)
unfolding shut_down_queue
Step-pending q q' n (adds name e) p = inr (Step-kept q q' n (adds name e) tt p)
Step-pending q q' n (retries name k base max e) p =
    inr (Step-kept q q' n (retries name k base max e) tt p)
Step-pending q q' n (forgets name e) p = inr (Step-kept q q' n (forgets name e) tt p)
Step-pending q q' n (gets name h) p = elim (get_keeps q q' name n h p) [
  | inl e ↦ inl (subst (λ m. get q ≡ handed m q') e h)
  | inr k ↦ inr k
]
Step-pending q q' n (dones name d e) p = inr (Step-kept q q' n (dones name d e) tt p)
Step-pending q q' n (fires name t e) p = inr (Step-kept q q' n (fires name t e) tt p)
Step-pending q q' n (abandons t e) p = inr (Step-kept q q' n (abandons t e) tt p)
Step-pending q q' n (shuts e) p = inr (rw e p)
