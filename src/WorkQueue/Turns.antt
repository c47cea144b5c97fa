-- ===== src/WorkQueue/Turns.antt =====
-- unitworkqueue.go: a queued unit is handed out in its turn.
use containerd_shim_systemd.Prelude.{
  ℕ, suc, ◌+◌, ◌<◌, ◌≡◌, refl, ◌⊎◌, inl, inr, Bool, true, String, List, [], ◌∷◌, ◌++◌, str_eq,
  str_eq_iff, arith, ap, sym, Bool-cases, if◌then◌else◌,
}
use containerd_shim_systemd.WorkQueue.{
  WorkQueue, add, add_after, timer_fires, timer_abandoned, forget, handed, get, done,
  shut_down_queue, with_count,
}
use containerd_shim_systemd.WorkQueue.Backoff.{backoff}
use containerd_shim_systemd.WorkQueue.Invariant.{
  mem, mem-append, get-handed, counted, retry_cases, Step, adds, retries, forgets, gets, dones,
  fires, abandons, shuts, Reach, here, next,
}

-- How many units stand before `n`.
abbrev pub ahead : String → List String → ℕ
ahead n [] = 0
ahead n (x ∷ xs) = if str_eq n x then 0 else suc (ahead n xs)

-- `n` is queued with `k` units before it.
pub record IsAt (n : String) (k : ℕ) (q : WorkQueue) : Type 0 where
  pub queued : mem n q.queue ≡ true
  pub turn : ahead n q.queue ≡ k

ahead-append :
    (n : String) (xs ys : List String) → mem n xs ≡ true → ahead n (xs ++ ys) ≡ ahead n xs
ahead-append n [] ys h = cc
ahead-append n (x ∷ xs) ys h = ground (arith, ahead-append n xs ys)

add-IsAt : (q : WorkQueue) (name n : String) (k : ℕ) → IsAt n k q → IsAt n k (add q name)
unfolding add
add-IsAt q name n k a =
    ground (arith, mem-append n q.queue (name ∷ []), ahead-append n q.queue (name ∷ []))

done-IsAt : (q : WorkQueue) (name n : String) (k : ℕ) → IsAt n k q → IsAt n k (done q name)
unfolding done
done-IsAt q name n k a =
    ground (arith, mem-append n q.queue (name ∷ []), ahead-append n q.queue (name ∷ []))

add_after-IsAt :
    (q : WorkQueue) (name : String) (delay : ℕ) (n : String) (k : ℕ)
    → IsAt n k q
    → IsAt n k (add_after q name delay)
unfolding add_after
add_after-IsAt q name delay n k a = ground (arith, add-IsAt q name n k)

IsAt-rest :
    (q : WorkQueue) (f : String → ℕ) (s : Bool) (t : List (String × ℕ)) (n : String) (k : ℕ)
    → IsAt n k q
    → IsAt n k (record q { failures = f; shutdown = s; timers = t })
IsAt-rest q f s t n k a = record { queued = a.queued; turn = a.turn }

-- How many names a call hands out.
abbrev pub handed_by : {q q' : WorkQueue} → Step q q' → ℕ
handed_by (gets name h) = 1
handed_by _ = 0

-- The call hands out `n`.
abbrev pub HandsOut : (n : String) {q q' : WorkQueue} → Step q q' → Type 0
HandsOut n (gets name h) = name ≡ n
HandsOut n _ = ⊥

get-IsAt :
    (q q' : WorkQueue) (name n : String) (k : ℕ)
    → get q ≡ handed name q'
    → IsAt n k q
    → (name ≡ n) ⊎ ((i : ℕ) × (IsAt n i q') × (i + 1 ≡ k))
get-IsAt q q' name n k h a =
    let (rest, e, e') = get-handed q h in
    elim (Bool-cases (str_eq n name)) [
      | inl same ↦ inl (sym ((str_eq_iff n name).0 same))
      | inr other ↦
          let m = ap (mem n) e in
          let t = ap (ahead n) e in
          inr (
            ahead n rest,
            rw e' (record { queued = ground (arith, m, a.queued); turn = refl }),
            ground (arith, t, a.turn),
          )
    ]

-- A call hands `n` out, or leaves it queued with one unit fewer before it for each name handed out.
Step-IsAt :
    (q q' : WorkQueue) (n : String) (k : ℕ) (st : Step q q')
    → IsAt n k q
    → HandsOut n st ⊎ ((i : ℕ) × (IsAt n i q') × (i + handed_by st ≡ k))
unfolding forget timer_fires timer_abandoned shut_down_queue
Step-IsAt q q' n k (adds name e) a = inr (k, rw e (add-IsAt q name n k a), omega arith)
Step-IsAt q q' n k (retries name r base max e) a = elim (retry_cases q name r base max) [
  | inl (e', _) ↦ inr (k, rw (e, e') a, omega arith)
  | inr (e', _, _) ↦ inr (
    k,
    rw (e, e')
        (add_after-IsAt (counted q name) name (backoff (q.failures name) base max) n k
          (IsAt-rest q (counted q name).failures q.shutdown q.timers n k a)),
    omega arith,
  )
]
Step-IsAt q q' n k (forgets name e) a =
    inr
      (k, rw e (IsAt-rest q (with_count q.failures name 0) q.shutdown q.timers n k a), omega arith)
Step-IsAt q q' n k (gets name h) a = get-IsAt q q' name n k h a
Step-IsAt q q' n k (dones name d e) a = inr (k, rw e (done-IsAt q name n k a), omega arith)
Step-IsAt q q' n k (fires name t e) a = inr (
  k,
  rw e (add-IsAt (record q { timers = t }) name n k (IsAt-rest q q.failures q.shutdown t n k a)),
  omega arith,
)
Step-IsAt q q' n k (abandons t e) a =
    inr (k, rw e (IsAt-rest q q.failures q.shutdown t n k a), omega arith)
Step-IsAt q q' n k (shuts e) a =
    inr (k, rw e (IsAt-rest q q.failures true q.timers n k a), omega arith)

-- Over a run of calls: the names handed out, and whether `n` was one.
abbrev pub gets_in : {q r : WorkQueue} → Reach q r → ℕ
gets_in here = 0
gets_in (next p st) = gets_in p + handed_by st

abbrev pub HandedIn : (n : String) {q r : WorkQueue} → Reach q r → Type 0
HandedIn n here = ⊥
HandedIn n (next p st) = HandedIn n p ⊎ HandsOut n st

Reach-IsAt :
    {q r : WorkQueue} (n : String) (k : ℕ) (p : Reach q r)
    → IsAt n k q
    → HandedIn n p ⊎ ((i : ℕ) × (IsAt n i r) × (i + gets_in p ≡ k))
Reach-IsAt n k here a = inr (k, a, omega arith)
Reach-IsAt n k (next {r} {s} p st) a = elim (Reach-IsAt n k p a) [
  | inl found ↦ inl (inl found)
  | inr (i, b, e) ↦ elim (Step-IsAt r s n i st b) [
    | inl out ↦ inl (inr out)
    | inr (j, c, f) ↦ inr (j, c, omega arith)
  ]
]

-- A unit with `k` units before it in the queue is handed out by one of the next `k + 1` `Get`s that
-- hand out a name, whatever else is called between them.
pub queued-handed :
    {q r : WorkQueue} (n : String) (p : Reach q r)
    → mem n q.queue ≡ true
    → ahead n q.queue < gets_in p
    → HandedIn n p
queued-handed {q} {r} n p m h =
    elim (Reach-IsAt n (ahead n q.queue) p (record { queued = m; turn = refl })) [
      | inl found ↦ found
      | inr (i, b, e) ↦ absurd (omega arith)
    ]
