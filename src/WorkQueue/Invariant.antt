-- ===== src/WorkQueue/Invariant.antt =====
-- unitworkqueue.go: what holds of the queue between any two calls, whichever goroutines make them.
use containerd_shim_systemd.Prelude.{
  ℕ, ◌+◌, ◌≤◌, ◌<◌, ◌≡◌, refl, ◌⊎◌, inl, inr, Bool, true, false, ◌||◌, String, List, [], ◌∷◌, ◌++◌,
  str_eq, str_eq_iff, arith, Bool-cases, ap, subst,
}
use containerd_shim_systemd.WorkQueue.{
  WorkQueue, new_unit_work_queue, add, add_after, timer_fires, timer_abandoned, retry, forget,
  waits, shut_down, handed, get, take_first, done, shut_down_queue, with_name, without_name,
  with_count,
}
use containerd_shim_systemd.WorkQueue.Backoff.{backoff, is_positive}

abbrev pub mem : String → List String → Bool
mem n [] = false
mem n (x ∷ xs) = str_eq n x || mem n xs

-- No name stands twice.
abbrev pub IsDistinct : List String → Type 0
IsDistinct [] = Unit
IsDistinct (x ∷ xs) = (mem x xs ≡ false) × IsDistinct xs

pub mem-append : (n : String) (xs ys : List String) → mem n (xs ++ ys) ≡ (mem n xs || mem n ys)
mem-append n [] ys = refl
mem-append n (x ∷ xs) ys = ground (arith, mem-append n xs ys)

pub IsDistinct-snoc :
    (x : String) (xs : List String) → mem x xs ≡ false → IsDistinct xs → IsDistinct (xs ++ x ∷ [])
IsDistinct-snoc x [] h d = (refl, tt)
IsDistinct-snoc x (y ∷ xs) h d = (
  ground (arith, mem-append y xs (x ∷ []), str_eq_iff x y, str_eq_iff y x),
  IsDistinct-snoc x xs (ground arith) d.1,
)

-- What the three collections say of one name: a queued name is dirty and not being processed, and a
-- dirty name is queued or being processed.
pub record IsCoherent (q : WorkQueue) (n : String) : Type 0 where
  pub queued_dirty : mem n q.queue ≡ true → q.dirty n ≡ true
  pub queued_idle : mem n q.queue ≡ true → q.processing n ≡ false
  pub dirty_kept : q.dirty n ≡ true → (mem n q.queue || q.processing n) ≡ true

pub record IsValid (q : WorkQueue) : Type 0 where
  pub distinct : IsDistinct q.queue
  pub coherent : (n : String) → IsCoherent q n

new-IsValid : IsValid new_unit_work_queue
unfolding new_unit_work_queue
new-IsValid = record { distinct = tt; coherent = λ n. ground arith }

add-IsCoherent : (q : WorkQueue) (name n : String) → IsCoherent q n → IsCoherent (add q name) n
unfolding add
add-IsCoherent q name n c = ground (arith, mem-append n q.queue (name ∷ []), str_eq_iff n name)

add-IsDistinct : (q : WorkQueue) (name : String) → IsValid q → IsDistinct (add q name).queue
unfolding add
add-IsDistinct q name v = ground (arith, IsDistinct-snoc name q.queue, v.distinct, v.coherent name)

done-IsCoherent :
    (q : WorkQueue) (name n : String)
    → q.processing name ≡ true
    → IsCoherent q n
    → IsCoherent (done q name) n
unfolding done
done-IsCoherent q name n p c = ground (arith, mem-append n q.queue (name ∷ []), str_eq_iff n name)

done-IsDistinct :
    (q : WorkQueue) (name : String)
    → q.processing name ≡ true
    → IsValid q
    → IsDistinct (done q name).queue
unfolding done
done-IsDistinct q name p v =
    ground (arith, IsDistinct-snoc name q.queue, v.distinct, v.coherent name)

take_first-IsCoherent :
    (q : WorkQueue) (name : String) (rest : List String) (n : String)
    → mem name rest ≡ false
    → q.queue ≡ name ∷ rest
    → IsCoherent q n
    → IsCoherent
        (record q {
          queue = rest;
          dirty = without_name q.dirty name;
          processing = with_name q.processing name;
        })
        n
take_first-IsCoherent q name rest n d e c = ground (arith, ap (mem n) e, str_eq_iff n name)

-- The queue after `Get` has handed out `name`.
abbrev pub taken : WorkQueue → String → List String → WorkQueue
taken q name rest = record q {
  queue = rest;
  dirty = without_name q.dirty name;
  processing = with_name q.processing name;
}

take_first-handed :
    (q : WorkQueue) (xs : List String) {name : String} {q' : WorkQueue}
    → take_first q xs ≡ handed name q'
    → (rest : List String) × (xs ≡ name ∷ rest) × (q' ≡ taken q name rest)
unfolding take_first
take_first-handed q [] {name} {q'} h = elim (Bool-cases q.shutdown) [
  | inl over ↦ let h' : shut_down ≡ handed name q' = rw (over, take_first) at h in cc
  | inr open_ ↦ let h' : waits ≡ handed name q' = rw (open_, take_first) at h in cc
]
take_first-handed q (x ∷ xs) {name} {q'} h =
    let e : x ≡ name = cc in (xs, ap (λ y. y ∷ xs) e, subst (λ y. q' ≡ taken q y xs) e (cc))

-- `Get` hands out the first name of the queue.
pub get-handed :
    (q : WorkQueue) {name : String} {q' : WorkQueue}
    → get q ≡ handed name q'
    → (rest : List String) × (q.queue ≡ name ∷ rest) × (q' ≡ taken q name rest)
unfolding get
get-handed q h = take_first-handed q q.queue h

get-IsValid :
    (q : WorkQueue) {name : String} {q' : WorkQueue}
    → get q ≡ handed name q'
    → IsValid q
    → IsValid q'
get-IsValid q {name} {q'} h v =
    let (rest, e, e') = get-handed q h in
    let d : IsDistinct (name ∷ rest) = subst IsDistinct e v.distinct in
    rw e' (record {
      distinct = d.1;
      coherent = λ n. take_first-IsCoherent q name rest n d.0 e (v.coherent n);
    })

-- The fields that the invariant does not read.
IsValid-rest :
    (q : WorkQueue) (f : String → ℕ) (s : Bool) (t : List (String × ℕ))
    → IsValid q
    → IsValid (record q { failures = f; shutdown = s; timers = t })
IsValid-rest q f s t v = record {
  distinct = v.distinct;
  coherent = λ n. record {
    queued_dirty = (v.coherent n).queued_dirty;
    queued_idle = (v.coherent n).queued_idle;
    dirty_kept = (v.coherent n).dirty_kept;
  };
}

add-IsValid : (q : WorkQueue) (name : String) → IsValid q → IsValid (add q name)
add-IsValid q name v = record {
  distinct = add-IsDistinct q name v;
  coherent = λ n. add-IsCoherent q name n (v.coherent n);
}

done-IsValid :
    (q : WorkQueue) (name : String) → q.processing name ≡ true → IsValid q → IsValid (done q name)
done-IsValid q name p v = record {
  distinct = done-IsDistinct q name p v;
  coherent = λ n. done-IsCoherent q name n p (v.coherent n);
}

add_after-IsValid :
    (q : WorkQueue) (name : String) (delay : ℕ) → IsValid q → IsValid (add_after q name delay)
unfolding add_after
add_after-IsValid q name delay v = elim (Bool-cases (is_positive delay)) [
  | inl later ↦ rw (later, add_after) (IsValid-rest q q.failures q.shutdown _ v)
  | inr now ↦ rw (now, add_after) (add-IsValid q name v)
]

-- The queue with one more failed attempt counted.
abbrev pub counted : WorkQueue → String → WorkQueue
counted q name = record q { failures = with_count q.failures name (q.failures name + 1) }

-- `Retry` refuses and changes nothing, or counts the attempt and adds the name later.
pub retry_cases :
    (q : WorkQueue) (name : String) (n base max : ℕ)
    → ((retry q name n base max ≡ (q, false)) × ((q.shutdown ≡ true) ⊎ (n ≤ q.failures name)))
      ⊎ ((retry q name n base max
            ≡ (add_after (counted q name) name (backoff (q.failures name) base max), true))
          × (q.shutdown ≡ false)
          × (q.failures name < n))
unfolding retry
retry_cases q name n base max = ground arith

retry-IsValid :
    (q : WorkQueue) (name : String) (n base max : ℕ)
    → IsValid q
    → IsValid (retry q name n base max).0
retry-IsValid q name n base max v = elim (retry_cases q name n base max) [
  | inl (e, _) ↦ rw e v
  | inr (e, _, _) ↦ rw e (
      add_after-IsValid (counted q name) name (backoff (q.failures name) base max)
        (IsValid-rest q (counted q name).failures q.shutdown q.timers v))
]

-- One call on the queue, by any goroutine of the shim. `Done` is called for a name that `Get` has
-- handed out, as the reconcile worker does.
pub data Step (q q' : WorkQueue) : Type 0 where
  adds : (name : String) → q' ≡ add q name → Step q q'
  retries : (name : String) (n base max : ℕ) → q' ≡ (retry q name n base max).0 → Step q q'
  forgets : (name : String) → q' ≡ forget q name → Step q q'
  gets : (name : String) → get q ≡ handed name q' → Step q q'
  dones : (name : String) → q.processing name ≡ true → q' ≡ done q name → Step q q'
  fires : (name : String) (t : List (String × ℕ)) → q' ≡ timer_fires q name t → Step q q'
  abandons : (t : List (String × ℕ)) → q' ≡ timer_abandoned q t → Step q q'
  shuts : q' ≡ shut_down_queue q → Step q q'

pub data Reach (q : WorkQueue) : WorkQueue → Type 0 where
  here : Reach q q
  next : {r s : WorkQueue} → Reach q r → Step r s → Reach q s

pub Step-IsValid : (q q' : WorkQueue) → Step q q' → IsValid q → IsValid q'
unfolding forget timer_fires timer_abandoned shut_down_queue
Step-IsValid q q' (adds name e) v = rw e (add-IsValid q name v)
Step-IsValid q q' (retries name n base max e) v = rw e (retry-IsValid q name n base max v)
Step-IsValid q q' (forgets name e) v =
    rw e (IsValid-rest q (with_count q.failures name 0) q.shutdown q.timers v)
Step-IsValid q q' (gets name h) v = get-IsValid q h v
Step-IsValid q q' (dones name p e) v = rw e (done-IsValid q name p v)
Step-IsValid q q' (fires name t e) v =
    rw e (add-IsValid (record q { timers = t }) name (IsValid-rest q q.failures q.shutdown t v))
Step-IsValid q q' (abandons t e) v = rw e (IsValid-rest q q.failures q.shutdown t v)
Step-IsValid q q' (shuts e) v = rw e (IsValid-rest q q.failures true q.timers v)

Reach-IsValid : {q r : WorkQueue} → Reach q r → IsValid q → IsValid r
Reach-IsValid here v = v
Reach-IsValid (next {r} {s} p st) v = Step-IsValid r s st (Reach-IsValid p v)

-- Through any calls from the new queue on, of which `Done` is called only for a name that is being
-- processed, as a worker calls it for the one that `Get` handed to it: no name is queued twice, a queued
-- name is dirty and is not being processed, and a dirty name is queued or being processed.
pub reachable-IsValid : (q : WorkQueue) → Reach new_unit_work_queue q → IsValid q
reachable-IsValid q r = Reach-IsValid r new-IsValid
