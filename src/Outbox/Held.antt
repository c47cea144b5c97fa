-- ===== src/Outbox/Held.antt =====
-- events.go, `eventOutbox`: what a `Send` keeps, and why its passes end.
use mathlib.Core.List.{Perm, perm_middle, append_assoc, append-nil}
use mathlib.Core.List.Perm
use containerd_shim_systemd.Prelude.{
  ℕ, zero, suc, ◌≤◌, ◌<◌, ◌≡◌, refl, ◌∙◌, ◌⊎◌, Bool, true, false, ◌||◌, not, String, List, [], ◌∷◌,
  ◌++◌, arith, length, Bool-cases, inl, inr,
}
use containerd_shim_systemd.Outbox.{
  Event, task_exit, task_delete, Outbox, publishable, record_event, flush_pass, flush, send_event,
  send_all,
}
use containerd_shim_systemd.Outbox.Order.{
  creates, starts, exits, deletes, any_of, push_all, Fits, IsHistory, send_event-IsHistory,
}

-- No event of a list is publishable.
abbrev pub NonePublishable : Outbox → List Event → Type 0
NonePublishable o [] = Unit
NonePublishable o (e ∷ es) = (publishable o e ≡ false) × NonePublishable o es

publishable-held :
    (o : Outbox) (held : List Event) (e : Event)
    → publishable (record o { held = held }) e ≡ publishable o e
unfolding publishable
publishable-held o held (task_exit c i s t p) = refl
publishable-held o held _ = refl

NonePublishable-held :
    (o : Outbox) (held es : List Event)
    → NonePublishable o es
    → NonePublishable (record o { held = held }) es
NonePublishable-held o held [] n = tt
NonePublishable-held o held (e ∷ es) n =
    (publishable-held o held e ∙ n.0, NonePublishable-held o held es n.1)

module _ {W : Type 0} (send : W → String → Event → Bool × W) where
  flush_pass-perm :
      (o : Outbox) (es : List Event) (w : W)
      → let r = flush_pass send o es w in Perm (r.published ++ r.kept) es
  unfolding flush_pass
  flush_pass-perm o [] w = Perm.refl []
  flush_pass-perm o (e ∷ es) w =
      let (ok, w') = send w o.ns e in
      let r = flush_pass send o es w in
      elim (Bool-cases (publishable o e)) [
        | inr held ↦
            rw (held, flush_pass)
              (Perm.trans (perm_middle r.published r.kept) (Perm.cons e (flush_pass-perm o es w)))
        | inl ready ↦ elim (Bool-cases ok) [
          | inl sent ↦
              rw (ready, sent, flush_pass) (Perm.cons e (flush_pass-perm (record_event o e) es w'))
          | inr failed ↦ rw (ready, failed, flush_pass) (Perm.refl (e ∷ es))
        ]
      ]

  flush-perm :
      (fuel : ℕ) (o : Outbox) (w : W)
      → let r = flush send fuel o w in Perm (r.published ++ r.box.held) o.held
  unfolding flush
  flush-perm zero o w = Perm.refl o.held
  flush-perm (suc fuel) o w =
      let r = flush_pass send o o.held w in
      let o' = record r.box { held = r.kept } in
      let rest = flush send fuel o' r.world in
      let passed = flush_pass-perm o o.held w in
      elim (Bool-cases (not r.sent || r.stalled)) [
        | inl over ↦ rw (over, flush) passed
        | inr again ↦
            rw (again, flush, append_assoc r.published rest.published rest.box.held)
              (Perm.trans (Perm.append (Perm.refl r.published) (flush-perm fuel o' r.world)) passed)
      ]

  -- A pass that ends with nothing sent and no stall has changed nothing, and has found no event
  -- publishable.
  flush_pass_idle :
      (o : Outbox) (es : List Event) (w : W)
      → let r = flush_pass send o es w in
        r.sent ≡ false → r.stalled ≡ false → (r.box ≡ o) × NonePublishable o r.kept
  unfolding flush_pass
  flush_pass_idle o [] w a b = (refl, tt)
  flush_pass_idle o (e ∷ es) w a b = ground (arith, flush_pass_idle o es w)

  -- A pass that sends something leaves fewer events.
  flush_pass_shrinks :
      (o : Outbox) (es : List Event) (w : W)
      → let r = flush_pass send o es w in
        (length r.kept ≤ length es) × (r.sent ≡ true → length r.kept < length es)
  unfolding flush_pass
  flush_pass_shrinks o [] w = (omega arith, λ h. cc)
  flush_pass_shrinks o (e ∷ es) w =
      let (ok, w') = send w o.ns e in
      ground (arith, flush_pass_shrinks o es w, flush_pass_shrinks (record_event o e) es w')

  -- With a pass for each held event and one more, any more fuel makes no difference.
  flush_fuel :
      (fuel more : ℕ) (o : Outbox) (w : W)
      → length o.held < fuel
      → length o.held < more
      → flush send fuel o w ≡ flush send more o w
  unfolding flush
  flush_fuel zero more o w h k = elim h [ ]
  flush_fuel (suc fuel) zero o w h k = elim k [ ]
  flush_fuel (suc fuel) (suc more) o w h k =
      let r = flush_pass send o o.held w in
      let o' = record r.box { held = r.kept } in
      elim (Bool-cases (not r.sent || r.stalled)) [
        | inl over ↦ rw (over, flush)
        | inr again ↦
            let fewer : length r.kept < length o.held =
              ground (arith, flush_pass_shrinks o o.held w) in
            rw (again, flush, flush_fuel fuel more o' r.world (omega arith) (omega arith))
      ]

  flush_idle :
      (fuel : ℕ) (o : Outbox) (w : W)
      → length o.held < fuel
      → (flush send fuel o w).stalled ≡ false
      → let r = flush send fuel o w in NonePublishable r.box r.box.held
  unfolding flush
  flush_idle zero o w h k = elim h [ ]
  flush_idle (suc fuel) o w h k =
      let r = flush_pass send o o.held w in
      let o' = record r.box { held = r.kept } in
      elim (Bool-cases (not r.sent || r.stalled)) [
        | inl over ↦
            let k' : r.stalled ≡ false = rw (over, flush) at k in
            let idle = flush_pass_idle o o.held w (ground arith) k' in
            let none_left : NonePublishable r.box r.kept = rw idle.0 idle.1 in
            rw (over, flush) (NonePublishable-held r.box r.kept r.kept none_left)
        | inr again ↦
            let k' : (flush send fuel o' r.world).stalled ≡ false = rw (again, flush) at k in
            let fewer : length r.kept < length o.held =
              ground (arith, flush_pass_shrinks o o.held w) in
            rw (again, flush) (flush_idle fuel o' r.world (omega arith) k')
      ]

  send_event_idle :
      (o : Outbox) (e : Event) (w : W)
      → (send_event send o e w).stalled ≡ false
      → let r = send_event send o e w in NonePublishable r.box r.box.held
  unfolding send_event
  send_event_idle o e w k =
      flush_idle (suc (length (o.held ++ e ∷ []))) (record o { held = o.held ++ e ∷ [] }) w
        (omega arith) k

  -- A pass that goes on has sent something, so that the passes end.
  flush_ends :
      (fuel : ℕ) (o : Outbox) (w : W) → length o.held < fuel → (flush send fuel o w).ended ≡ true
  unfolding flush
  flush_ends zero o w h = elim h [ ]
  flush_ends (suc fuel) o w h =
      let r = flush_pass send o o.held w in
      elim (Bool-cases (not r.sent || r.stalled)) [
        | inl over ↦ rw (over, flush) refl
        | inr again ↦
            let fewer : length r.kept < length o.held =
              ground (arith, flush_pass_shrinks o o.held w) in
            rw (again, flush)
              (flush_ends fuel (record r.box { held = r.kept }) r.world (omega arith))
      ]

  -- The loop of `Send` ends: its last pass sends nothing or stalls, before it runs out of the passes
  -- that the model gives it, one for each held event and one more; and with any more of them the
  -- result is the same.
  pub send_event_ends :
      (o : Outbox) (e : Event) (w : W) (fuel : ℕ)
      → length (o.held ++ e ∷ []) < fuel
      → ((send_event send o e w).ended ≡ true)
        × (send_event send o e w ≡ flush send fuel (record o { held = o.held ++ e ∷ [] }) w)
  unfolding send_event
  send_event_ends o e w fuel h =
      let full = record o { held = o.held ++ e ∷ [] } in
      (
        flush_ends (suc (length (o.held ++ e ∷ []))) full w (omega arith),
        flush_fuel (suc (length (o.held ++ e ∷ []))) fuel full w (omega arith) h,
      )

  -- A `Send` neither loses nor repeats an event: what it hands over and what it holds after are
  -- together what it held before and the new event.
  pub send_event-perm :
      (o : Outbox) (e : Event) (w : W)
      → let r = send_event send o e w in Perm (r.published ++ r.box.held) (o.held ++ e ∷ [])
  unfolding send_event
  send_event-perm o e w =
      flush-perm (suc (length (o.held ++ e ∷ []))) (record o { held = o.held ++ e ∷ [] }) w

  -- Over all the `Send`s of a process, whichever of them fail, each event is published once or
  -- still held.
  pub send_all-perm :
      (o : Outbox) (es : List Event) (w : W)
      → let r = send_all send o es w in Perm (r.published ++ r.box.held) (o.held ++ es)
  unfolding send_all
  send_all-perm o [] w = rw append-nil (Perm.refl o.held)
  send_all-perm o (e ∷ es) w =
      let r = send_event send o e w in
      let rest = send_all send r.box es r.world in
      let tail = Perm.append (Perm.refl r.published) (send_all-perm r.box es r.world) in
      let first = Perm.append (send_event-perm o e w) (Perm.refl es) in
      rw (append_assoc r.published rest.published rest.box.held) (
        Perm.trans tail (
          rw (← append_assoc r.published r.box.held es)
            (Perm.trans first (rw (append_assoc o.held (e ∷ []) es) (Perm.refl _)))))

-- `e` waits for something that has not been published, or follows a delete.
abbrev pub IsWaiting : List Event → Event → Type 0
IsWaiting past e =
    (any_of deletes past ≡ true)
    ⊎ ((exits e ≡ true) × (any_of starts past ≡ false))
    ⊎ ((deletes e ≡ true) × (any_of creates past ≡ false))

abbrev pub AllWaiting : List Event → List Event → Type 0
AllWaiting past [] = Unit
AllWaiting past (e ∷ es) = IsWaiting past e × AllWaiting past es

IsWaiting-of_publishable :
    (past : List Event) (o : Outbox) (e : Event)
    → Fits past o
    → publishable o e ≡ false
    → IsWaiting past e
unfolding publishable
IsWaiting-of_publishable past o (task_exit c i s t p) f h = ground arith
IsWaiting-of_publishable past o (task_delete c p s t) f h = ground arith
IsWaiting-of_publishable past o _ f h = ground arith

waiting_of_none :
    (past : List Event) (o : Outbox) (es : List Event)
    → Fits past o
    → NonePublishable o es
    → AllWaiting past es
waiting_of_none past o [] f n = tt
waiting_of_none past o (e ∷ es) f n =
    (IsWaiting-of_publishable past o e f n.0, waiting_of_none past o es f n.1)

module _ {W : Type 0} (send : W → String → Event → Bool × W) where
  -- A `Send` that does not stall publishes all that can be published: every event that is still
  -- held is an exit with no start published, a delete with no create published, or comes after a
  -- delete. The flags before it must be those of the history.
  pub held-waiting :
      (past : List Event) (o : Outbox) (e : Event) (w : W)
      → IsHistory past o
      → (send_event send o e w).stalled ≡ false
      → let r = send_event send o e w in AllWaiting (push_all r.published past) r.box.held
  held-waiting past o e w h k =
      let r = send_event send o e w in
      waiting_of_none (push_all r.published past) r.box r.box.held
        (send_event-IsHistory send past o e w h).fits (send_event_idle send o e w k)
