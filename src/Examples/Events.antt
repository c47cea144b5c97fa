-- ===== src/Examples/Events.antt =====
-- Runs of the outbox of events.go.
use mathlib.Core.List.{Perm}
use containerd_shim_systemd.Prelude.{
  ◌≤◌, ◌≡◌, refl, true, false, length, List, [], ◌∷◌, ◌++◌, arith,
}
use containerd_shim_systemd.Outbox.{
  Event, task_create, task_start, task_exit, task_delete, new_event_outbox, flush, publishable,
  record_event, send_event, send_all,
}
use containerd_shim_systemd.Outbox.Channel.{
  Traffic, sends, forwards, closes, new_events, service_send, forward, close_events, run, envelopes,
  all_on_topic, run-published,
}
use containerd_shim_systemd.Outbox.Order.{IsOrdered, push_all, IsHistory, published-IsOrdered}
use containerd_shim_systemd.Outbox.Held.{AllWaiting, send_all-perm, send_event_ends, held-waiting}
use containerd_shim_systemd.Examples.World.{first_fails}

abbrev create : Event
create = task_create "c" "/b" "" "" "" false "" 7

abbrev start : Event
start = task_start "c" 7

abbrev exit : Event
exit = task_exit "c" "c" 0 5 7

abbrev delete : Event
delete = task_delete "c" 7 0 5

-- The exit is seen before the start is published, and the first send fails.
abbrev early_exit : List Event
early_exit = create ∷ exit ∷ start ∷ delete ∷ []

early_exit_run :
    (send_all first_fails (new_event_outbox "ns") early_exit 0).published
    ≡ create ∷ start ∷ exit ∷ delete ∷ []
unfolding send_all send_event flush new_event_outbox publishable record_event
early_exit_run = refl

published-IsOrdered_example :
    IsOrdered (push_all (send_all first_fails (new_event_outbox "ns") early_exit 0).published [])
published-IsOrdered_example = published-IsOrdered first_fails "ns" early_exit 0

send_all-perm_example :
    let r = send_all first_fails (new_event_outbox "ns") early_exit 0 in
    Perm (r.published ++ r.box.held) ((new_event_outbox "ns").held ++ early_exit)
send_all-perm_example = send_all-perm first_fails (new_event_outbox "ns") early_exit 0

send_event_ends_example :
    ((send_event first_fails (new_event_outbox "ns") exit 1).ended ≡ true)
    × (send_event first_fails (new_event_outbox "ns") exit 1
        ≡ flush first_fails 9 (record (new_event_outbox "ns") { held = exit ∷ [] }) 1)
unfolding new_event_outbox
send_event_ends_example = send_event_ends first_fails (new_event_outbox "ns") exit 1 9 (omega arith)

empty-IsHistory : IsHistory [] (new_event_outbox "ns")
unfolding new_event_outbox
empty-IsHistory = record {
  fits = record { known_is = refl; started_is = refl; deleted_is = refl };
  ordered = tt;
}

held-waiting_example :
    let r = send_event first_fails (new_event_outbox "ns") exit 1 in
    AllWaiting (push_all r.published []) r.box.held
held-waiting_example =
    held-waiting first_fails [] (new_event_outbox "ns") exit 1 empty-IsHistory
      (unfold send_event flush new_event_outbox publishable record_event in refl)

-- An event is sent after the close, and one is given up.
abbrev traffic : List Traffic
traffic =
    sends false "ns" create
    ∷ sends true "ns" start
    ∷ forwards
    ∷ sends false "ns" exit
    ∷ closes
    ∷ sends false "ns" delete
    ∷ forwards
    ∷ forwards
    ∷ []

traffic-over : (run new_events traffic).0.wait_is_over ≡ true
unfolding run new_events service_send forward close_events
traffic-over = refl

run-published_example :
    let (r, es) = run new_events traffic in
    (envelopes r.published ++ r.events ≡ es)
    × (all_on_topic r.published ≡ true)
    × (length r.events ≤ 128)
    × (r.wait_is_over ≡ true → envelopes r.published ≡ es)
run-published_example = run-published traffic
