-- ===== src/Outbox/Order.antt =====
-- events.go, `eventOutbox`: the order in which containerd sees the events of one process.
use containerd_shim_systemd.Prelude.{
  ℕ, zero, suc, ◌≡◌, refl, Bool, true, false, ◌||◌, not, String, List, [], ◌∷◌, ◌++◌, arith, length,
  Bool-cases, inl, inr,
}
use containerd_shim_systemd.Outbox.{
  Event, task_create, task_start, task_exit, task_delete, task_exec_added, task_exec_started,
  task_other, Outbox, new_event_outbox, publishable, record_event, flush_pass, flush, send_event,
  send_all,
}

-- What an event tells containerd: that the process exists, started, ended, is gone.
abbrev pub creates : Event → Bool
creates (task_create c b i e r t k p) = true
creates (task_exec_added c x) = true
creates _ = false

abbrev pub starts : Event → Bool
starts (task_start c p) = true
starts (task_exec_started c x p) = true
starts _ = false

abbrev pub exits : Event → Bool
exits (task_exit c i s t p) = true
exits _ = false

abbrev pub deletes : Event → Bool
deletes (task_delete c p s t) = true
deletes _ = false

abbrev pub any_of : (Event → Bool) → List Event → Bool
any_of p [] = false
any_of p (e ∷ es) = p e || any_of p es

-- `e` may follow what was published before it.
pub record IsAllowed (past : List Event) (e : Event) : Type 0 where
  pub not_deleted : any_of deletes past ≡ false
  pub exit_started : exits e ≡ true → any_of starts past ≡ true
  pub delete_known : deletes e ≡ true → any_of creates past ≡ true

-- A history of published events, the newest first, in which each one may follow those before it.
abbrev pub IsOrdered : List Event → Type 0
IsOrdered [] = Unit
IsOrdered (e ∷ past) = IsAllowed past e × IsOrdered past

-- A history, newest first, grown by a list of events, oldest first.
abbrev pub push_all : List Event → List Event → List Event
push_all [] past = past
push_all (e ∷ es) past = push_all es (e ∷ past)

-- The three flags say what is in the history.
pub record Fits (past : List Event) (o : Outbox) : Type 0 where
  pub known_is : o.known ≡ any_of creates past
  pub started_is : o.started ≡ any_of starts past
  pub deleted_is : o.deleted ≡ any_of deletes past

pub push_all-append :
    (xs ys past : List Event) → push_all (xs ++ ys) past ≡ push_all ys (push_all xs past)
push_all-append [] ys past = refl
push_all-append (x ∷ xs) ys past = push_all-append xs ys (x ∷ past)

pub record_event-Fits :
    (past : List Event) (o : Outbox) (e : Event) → Fits past o → Fits (e ∷ past) (record_event o e)
unfolding record_event
record_event-Fits past o (task_create c b i e r t k p) f = ground arith
record_event-Fits past o (task_exec_added c x) f = ground arith
record_event-Fits past o (task_start c p) f = ground arith
record_event-Fits past o (task_exec_started c x p) f = ground arith
record_event-Fits past o (task_delete c p s t) f = ground arith
record_event-Fits past o (task_exit c i s t p) f = ground arith
record_event-Fits past o (task_other t c) f = ground arith

pub publishable-IsAllowed :
    (past : List Event) (o : Outbox) (e : Event)
    → Fits past o
    → publishable o e ≡ true
    → IsAllowed past e
unfolding publishable
publishable-IsAllowed past o (task_exit c i s t p) f h = ground arith
publishable-IsAllowed past o (task_delete c p s t) f h = ground arith
publishable-IsAllowed past o _ f h = ground arith

-- A history in order, with the flags that it leaves.
pub record IsHistory (past : List Event) (o : Outbox) : Type 0 where
  pub fits : Fits past o
  pub ordered : IsOrdered past

-- Handing over a publishable event keeps the history in order.
pub record_event-IsHistory :
    (past : List Event) (o : Outbox) (e : Event)
    → publishable o e ≡ true
    → IsHistory past o
    → IsHistory (e ∷ past) (record_event o e)
record_event-IsHistory past o e ready h = record {
  fits = record_event-Fits past o e h.fits;
  ordered = (publishable-IsAllowed past o e h.fits ready, h.ordered);
}

-- What an outbox holds back does not bear on its history.
IsHistory-held :
    (past : List Event) (o : Outbox) (es : List Event)
    → IsHistory past o
    → IsHistory past (record o { held = es })
IsHistory-held past o es h = record {
  fits = record {
    known_is = h.fits.known_is;
    started_is = h.fits.started_is;
    deleted_is = h.fits.deleted_is;
  };
  ordered = h.ordered;
}

new-IsHistory : (ns : String) → IsHistory [] (new_event_outbox ns)
unfolding new_event_outbox
new-IsHistory ns = record {
  fits = record { known_is = refl; started_is = refl; deleted_is = refl };
  ordered = tt;
}

module _ {W : Type 0} (send : W → String → Event → Bool × W) where
  flush_pass-IsHistory :
      (past : List Event) (o : Outbox) (es : List Event) (w : W)
      → IsHistory past o
      → IsHistory (push_all (flush_pass send o es w).published past) (flush_pass send o es w).box
  unfolding flush_pass
  flush_pass-IsHistory past o [] w h = h
  flush_pass-IsHistory past o (e ∷ es) w h =
      let (ok, w') = send w o.ns e in
      let step = record_event-IsHistory past o e in
      elim (Bool-cases (publishable o e)) [
        | inr held ↦ rw (held, flush_pass) (flush_pass-IsHistory past o es w h)
        | inl ready ↦ elim (Bool-cases ok) [
          | inl sent ↦
              rw (ready, sent, flush_pass)
                (flush_pass-IsHistory (e ∷ past) (record_event o e) es w' (step ready h))
          | inr failed ↦ rw (ready, failed, flush_pass) h
        ]
      ]

  flush-IsHistory :
      (fuel : ℕ) (past : List Event) (o : Outbox) (w : W)
      → IsHistory past o
      → IsHistory (push_all (flush send fuel o w).published past) (flush send fuel o w).box
  unfolding flush
  flush-IsHistory zero past o w h = h
  flush-IsHistory (suc fuel) past o w h =
      let r = flush_pass send o o.held w in
      let o' = record r.box { held = r.kept } in
      let passed = flush_pass-IsHistory past o o.held w h in
      let kept = IsHistory-held (push_all r.published past) r.box r.kept passed in
      let rest = flush send fuel o' r.world in
      elim (Bool-cases (not r.sent || r.stalled)) [
        | inl over ↦ rw (over, flush) kept
        | inr again ↦
            rw (again, flush)
              (rw (push_all-append r.published rest.published past)
                (flush-IsHistory fuel (push_all r.published past) o' r.world kept))
      ]

  pub send_event-IsHistory :
      (past : List Event) (o : Outbox) (e : Event) (w : W)
      → IsHistory past o
      → IsHistory (push_all (send_event send o e w).published past) (send_event send o e w).box
  unfolding send_event
  send_event-IsHistory past o e w h =
      let held = o.held ++ e ∷ [] in
      flush-IsHistory (suc (length held)) past (record o { held = held }) w
        (IsHistory-held past o held h)

  pub send_all-IsHistory :
      (past : List Event) (o : Outbox) (es : List Event) (w : W)
      → IsHistory past o
      → IsHistory (push_all (send_all send o es w).published past) (send_all send o es w).box
  unfolding send_all
  send_all-IsHistory past o [] w h = h
  send_all-IsHistory past o (e ∷ es) w h =
      let r = send_event send o e w in
      let rest = send_all send r.box es r.world in
      rw (push_all-append r.published rest.published past) (
        send_all-IsHistory (push_all r.published past) r.box es r.world
          (send_event-IsHistory past o e w h))

  -- Whatever events a process hands to its outbox, in whatever order, and whichever of the sends
  -- fail: in what is published every exit comes after a start, every delete after a create or an
  -- exec-added, and nothing comes after a delete.
  pub published-IsOrdered :
      (ns : String) (es : List Event) (w : W)
      → IsOrdered (push_all (send_all send (new_event_outbox ns) es w).published [])
  published-IsOrdered ns es w =
      (send_all-IsHistory [] (new_event_outbox ns) es w (new-IsHistory ns)).ordered
