-- ===== src/Reactor/Loop.antt =====
-- unitevents.go: `runEventReactor`, which dials again whenever its connection is lost, and what the
-- workers do meanwhile.
use containerd_shim_systemd.Prelude.{ℕ, Bool, true, false, String, List, [], ◌∷◌, if◌then◌else◌}
use containerd_shim_systemd.Signals.{UnitUpdate}
use containerd_shim_systemd.WorkQueue.{WorkQueue, get, handed, timer_fires}
use containerd_shim_systemd.Reactor.{ProcessLookup, resync, enqueue_if_exit, reconcile_round}

module _ (l : ProcessLookup) where
  open l use {Store, paths}

  -- What happens while the reactor runs: a signal comes; a worker is handed a unit, or reconciles the
  -- one that it was handed; a retry's timer fires; a request changes the processes.
  pub data Moment : Type 0 where
    signals : UnitUpdate → Moment
    takes : Moment
    reconciles : (path : String) → Moment
    fires : (name : String) (left : List (String × ℕ)) → Moment
    elsewhere : (f : Store → Store) → Moment

  -- One moment, with a connection or without one; without one a signal is lost.
  unfoldable pub moment : Bool → Store × WorkQueue → Moment → Store × WorkQueue
  moment online (s, q) (signals u) = if online then enqueue_if_exit l s q u else (s, q)
  moment online (s, q) takes = elim (get q) [ handed path q' ↦ (s, q') | _ ↦ (s, q) ]
  moment online (s, q) (reconciles path) =
      if q.processing path then reconcile_round l s q path else (s, q)
  moment online (s, q) (fires name left) = (s, timer_fires q name left)
  moment online (s, q) (elsewhere f) = (f s, q)

  unfoldable pub moments : Bool → Store × WorkQueue → List Moment → Store × WorkQueue
  unfolding moment
  moments online r [] = r
  moments online r (m ∷ ms) = moments online (moment online r m) ms

  -- One pass of the loop: the dial fails, and it sleeps; or there is a connection until its stream
  -- ends, and then it sleeps.
  pub data Attempt : Type 0 where
    refused : (asleep : List Moment) → Attempt
    connected : (during asleep : List Moment) → Attempt

  unfoldable pub attempt : Store × WorkQueue → Attempt → Store × WorkQueue
  unfolding moments resync
  attempt r (refused asleep) = moments false r asleep
  attempt (s, q) (connected during asleep) =
      moments false (moments true (s, resync l s q) during) asleep

  -- The loop of `runEventReactor`.
  unfoldable pub attempts : Store × WorkQueue → List Attempt → Store × WorkQueue
  unfolding attempt
  attempts r [] = r
  attempts r (a ∷ rest) = attempts (attempt r a) rest
