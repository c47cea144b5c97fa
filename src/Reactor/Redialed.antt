-- ===== src/Reactor/Redialed.antt =====
-- unitevents.go: what a connection that is dialed again makes up for.
use containerd_shim_systemd.Prelude.{
  ◌≡◌, refl, sym, ◌∙◌, ◌⊎◌, inl, inr, Bool, true, false, ◌||◌, String, List, [], ◌∷◌, str_eq,
  str_eq_refl, arith, subst, Bool-cases,
}
use containerd_shim_systemd.Signals.{UnitUpdate}
use containerd_shim_systemd.WorkQueue.{
  WorkQueue, new_unit_work_queue, GetResult, waits, shut_down, handed, get, add, add_after, retry,
  forget, done, timer_fires, timer_abandoned,
}
use containerd_shim_systemd.WorkQueue.Backoff.{
  reconcile_max_retries, reconcile_retry_base, reconcile_retry_max,
}
use containerd_shim_systemd.WorkQueue.Invariant.{
  mem, get-handed, Step, adds, retries, forgets, gets, dones, fires as timer, abandons, shuts,
  Reach, here, next,
}
use containerd_shim_systemd.WorkQueue.Progress.{pending, IsKept, Step-kept, get_keeps}
use containerd_shim_systemd.Reactor.{
  ProcessLookup, resync, add_paths, enqueue_if_exit, on_service_exit, on_unit_exit, settle,
  reconcile_unit, reconcile_round,
}
use containerd_shim_systemd.Reactor.Sweep.{resync-pending}
use containerd_shim_systemd.Reactor.Loop.{
  Moment, signals, takes, reconciles, fires, elsewhere, moment, moments, Attempt, refused,
  connected, attempt, attempts,
}

-- Calls on the queue that neither hand a unit out nor shut it down.
data Calls (q : WorkQueue) : WorkQueue → Type 0 where
  none_made : Calls q q
  one_more : {r s : WorkQueue} → Calls q r → (st : Step r s) → IsKept st → Calls q s

Calls-Reach :
    {q r : WorkQueue} → Calls q r → Reach new_unit_work_queue q → Reach new_unit_work_queue r
Calls-Reach none_made h = h
Calls-Reach (one_more c st k) h = next (Calls-Reach c h) st

Step-open : (q r : WorkQueue) (st : Step q r) → IsKept st → r.shutdown ≡ q.shutdown
unfolding add retry add_after forget done timer_fires timer_abandoned
Step-open q r (adds name e) k = rw e (ground arith)
Step-open q r (retries name n base max e) k = rw e (ground arith)
Step-open q r (forgets name e) k = rw e refl
Step-open q r (gets name h) k = absurd k
Step-open q r (dones name p e) k = rw e (ground arith)
Step-open q r (timer name t e) k = rw e (ground arith)
Step-open q r (abandons t e) k = rw e refl
Step-open q r (shuts e) k = absurd k

Calls-open : {q r : WorkQueue} → Calls q r → r.shutdown ≡ q.shutdown
Calls-open none_made = refl
Calls-open (one_more {r} {s} c st k) = Step-open r s st k ∙ Calls-open c

Calls-pending : {q r : WorkQueue} (n : String) → Calls q r → pending q n ≡ true → pending r n ≡ true
Calls-pending n none_made h = h
Calls-pending n (one_more {r} {s} c st k) h = Step-kept r s n st k (Calls-pending n c h)

-- A queue that the reactor can have, and that is not shut down.
abbrev pub IsOpen : WorkQueue → Type 0
IsOpen q = Reach new_unit_work_queue q × (q.shutdown ≡ false)

Calls-IsOpen : {q r : WorkQueue} → Calls q r → IsOpen q → IsOpen r
Calls-IsOpen c (h, o) = (Calls-Reach c h, Calls-open c ∙ o)

add_paths-Calls :
    (q : WorkQueue) (ps : List String) {p : WorkQueue} → Calls p q → Calls p (add_paths q ps)
unfolding add_paths
add_paths-Calls q [] c = c
add_paths-Calls q (name ∷ ps) c = add_paths-Calls (add q name) ps (one_more c (adds name refl) tt)

module _ (l : ProcessLookup) where
  open l use {Store, Ref, get_by_path, paths, process_state}

  settle-Calls :
      (q : WorkQueue) (path : String) (ok : Bool) {p : WorkQueue}
      → Calls p q
      → Calls p (settle l q path ok)
  unfolding settle
  settle-Calls q path true c = one_more c (forgets path refl) tt
  settle-Calls q path false c =
      let (q', again) =
        retry q path reconcile_max_retries reconcile_retry_base reconcile_retry_max in
      let tried =
        one_more c
          (retries path reconcile_max_retries reconcile_retry_base reconcile_retry_max refl) tt in
      elim (Bool-cases again) [
        | inl e ↦ rw (e, settle) tried
        | inr e ↦ rw (e, settle) (one_more tried (forgets path refl) tt)
      ]

  enqueue-Calls : (s : Store) (q : WorkQueue) (u : UnitUpdate) → Calls q (enqueue_if_exit l s q u).1
  unfolding enqueue_if_exit on_service_exit on_unit_exit
  enqueue-Calls s q u =
      let cases : ((enqueue_if_exit l s q u).1 ≡ q)
          ⊎ ((enqueue_if_exit l s q u).1 ≡ add q u.path_base) =
        ground arith in
      elim cases [
        | inl e ↦ subst (Calls q) (sym e) none_made
        | inr e ↦ subst (Calls q) (sym e) (one_more none_made (adds u.path_base refl) tt)
      ]

  -- Whether a moment hands the unit out.
  abbrev pub is_handed : WorkQueue → Moment l → String → Bool
  is_handed q takes path = elim (get q) [ handed name q' ↦ str_eq name path | _ ↦ false ]
  is_handed q _ path = false

  abbrev pub is_handed_in : Bool → Store × WorkQueue → List (Moment l) → String → Bool
  is_handed_in online r [] path = false
  is_handed_in online r (m ∷ ms) path =
      is_handed r.1 m path || is_handed_in online (moment l online r m) ms path

  GetResult-cases :
      (g : GetResult)
      → ((g ≡ waits) ⊎ (g ≡ shut_down)) ⊎ ((name : String) × (q : WorkQueue) × (g ≡ handed name q))
  GetResult-cases waits = inl (inl refl)
  GetResult-cases shut_down = inl (inr refl)
  GetResult-cases (handed name q) = inr (name, q, refl)

  moment-Calls :
      (online : Bool) (s : Store) (q : WorkQueue) (m : Moment l)
      → (m ≡ takes) ⊎ Calls q (moment l online (s, q) m).1
  unfolding moment reconcile_round
  moment-Calls true s q (signals u) = inr (enqueue-Calls s q u)
  moment-Calls false s q (signals u) = inr none_made
  moment-Calls online s q takes = inl refl
  moment-Calls online s q (reconciles path) = elim (Bool-cases (q.processing path)) [
    | inl e ↦ inr (
        rw (e, moment)
          (settle-Calls (done q path) path (reconcile_unit l s path).1
            (one_more none_made (dones path e refl) tt)))
    | inr e ↦ inr (rw (e, moment) none_made)
  ]
  moment-Calls online s q (fires name left) = inr (one_more none_made (timer name left refl) tt)
  moment-Calls online s q (elsewhere f) = inr none_made

  moment-IsOpen :
      (online : Bool) (s : Store) (q : WorkQueue) (m : Moment l)
      → IsOpen q
      → IsOpen (moment l online (s, q) m).1
  unfolding moment
  moment-IsOpen online s q m h = elim (moment-Calls online s q m) [
    | inl e ↦ rw e (elim (GetResult-cases (get q)) [
      | inl (inl g) ↦ rw (g, moment) h
      | inl (inr g) ↦ rw (g, moment) h
      | inr (name, q', g) ↦
          let (rest, _, e') = get-handed q g in rw (g, moment) (next h.0 (gets name g), rw e' h.1)
    ])
    | inr c ↦ Calls-IsOpen c h
  ]

  moments-IsOpen :
      (online : Bool) (s : Store) (q : WorkQueue) (ms : List (Moment l))
      → IsOpen q
      → IsOpen (moments l online (s, q) ms).1
  unfolding moments
  moments-IsOpen online s q [] h = h
  moments-IsOpen online s q (m ∷ ms) h =
      let r = moment l online (s, q) m in
      moments-IsOpen online r.0 r.1 ms (moment-IsOpen online s q m h)

  resync-IsOpen : (s : Store) (q : WorkQueue) → IsOpen q → IsOpen (resync l s q)
  unfolding resync
  resync-IsOpen s q h = Calls-IsOpen (add_paths-Calls q (paths s) none_made) h

  attempts-IsOpen :
      (s : Store) (q : WorkQueue) (todo : List (Attempt l))
      → IsOpen q
      → IsOpen (attempts l (s, q) todo).1
  unfolding attempts attempt
  attempts-IsOpen s q [] h = h
  attempts-IsOpen s q (refused asleep ∷ rest) h =
      let r = moments l false (s, q) asleep in
      attempts-IsOpen r.0 r.1 rest (moments-IsOpen false s q asleep h)
  attempts-IsOpen s q (connected during asleep ∷ rest) h =
      let t = moments l true (s, resync l s q) during in
      let r = moments l false t asleep in
      attempts-IsOpen r.0 r.1 rest (
        moments-IsOpen false t.0 t.1 asleep
          (moments-IsOpen true s (resync l s q) during (resync-IsOpen s q h)))

  moment-pending :
      (online : Bool) (s : Store) (q : WorkQueue) (m : Moment l) (path : String)
      → pending q path ≡ true
      → (is_handed q m path ≡ true) ⊎ (pending (moment l online (s, q) m).1 path ≡ true)
  unfolding moment
  moment-pending online s q m path h = elim (moment-Calls online s q m) [
    | inl e ↦ rw e (elim (GetResult-cases (get q)) [
      | inl (inl g) ↦ inr (rw (g, moment) h)
      | inl (inr g) ↦ inr (rw (g, moment) h)
      | inr (name, q', g) ↦ elim (get_keeps q q' name path g h) [
        | inl same ↦ inl (rw (g, is_handed) (rw same (str_eq_refl path)))
        | inr kept ↦ inr (rw (g, moment) kept)
      ]
    ])
    | inr c ↦ inr (Calls-pending path c h)
  ]

  moments-pending :
      (online : Bool) (s : Store) (q : WorkQueue) (ms : List (Moment l)) (path : String)
      → pending q path ≡ true
      → (is_handed_in online (s, q) ms path ≡ true)
        ⊎ (pending (moments l online (s, q) ms).1 path ≡ true)
  unfolding moments
  moments-pending online s q [] path h = inr h
  moments-pending online s q (m ∷ ms) path h =
      let r = moment l online (s, q) m in
      elim (moment-pending online s q m path h) [
        | inl now ↦ inl (rw now refl)
        | inr kept ↦ elim (moments-pending online r.0 r.1 ms path kept) [
          | inl later ↦ inl (ground (arith, later))
          | inr still ↦ inr still
        ]
      ]

  -- However the reactor's connections came and went before, and whichever signals were lost with them:
  -- once it is connected, every unit that is tracked by then is handed to a worker while the
  -- connection is up, or is still left to be looked at when it ends.
  pub reconnected-handed :
      (s : Store) (before : List (Attempt l)) (during : List (Moment l)) (path : String)
      → let (s', q') = attempts l (s, new_unit_work_queue) before in
        mem path (paths s') ≡ true
        → (is_handed_in true (s', resync l s' q') during path ≡ true)
          ⊎ (pending (moments l true (s', resync l s' q') during).1 path ≡ true)
  reconnected-handed s before during path tracked =
      let (s', q') = attempts l (s, new_unit_work_queue) before in
      let (reach, still_open) =
        attempts-IsOpen s new_unit_work_queue before (here, unfold new_unit_work_queue in refl) in
      moments-pending true s' (resync l s' q') during path
        (resync-pending l s' q' path reach still_open tracked)
