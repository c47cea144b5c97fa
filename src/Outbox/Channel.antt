-- ===== src/Outbox/Channel.antt =====
-- events.go: the service's channel of events, from `Service.send` to the publisher of `Forward`.
use mathlib.Core.List.{append_assoc, append-nil}
use containerd_shim_systemd.Prelude.{
  str_eq, str_eq_refl, ◌&&◌, ◌≤◌, ◌≡◌, refl, sym, ap, ◌∙◌, inl, inr, Bool, true, false, String,
  List, [], ◌∷◌, ◌++◌, length, length-append, ltb, arith, if◌then◌else◌, Bool-cases,
}
use containerd_shim_systemd.Outbox.{
  Event, task_create, task_start, task_exit, task_delete, task_exec_added, task_exec_started,
  task_other,
}

-- The topics, as containerd's runtime package names them.
pub data Topic : Type 0 where
  task_create_event_topic task_start_event_topic task_exit_event_topic task_delete_event_topic :
      Topic
  task_exec_added_event_topic task_exec_started_event_topic : Topic
  other_topic : String → Topic

-- `GetTopic`.
unfoldable pub get_topic : Event → Topic
get_topic (task_create c b i o e t k pid) = task_create_event_topic
get_topic (task_start c pid) = task_start_event_topic
get_topic (task_exit c x s t pid) = task_exit_event_topic
get_topic (task_delete c pid s t) = task_delete_event_topic
get_topic (task_exec_added c x) = task_exec_added_event_topic
get_topic (task_exec_started c x pid) = task_exec_started_event_topic
get_topic (task_other topic c) = other_topic topic

-- `s.events`, which holds 128 envelopes, and `s.waitEvents`; and what the publisher was given, oldest
-- first. Whether it could publish it is only logged.
pub record Events : Type 0 where
  pub events : List (String × Event)
  pub is_closed : Bool
  pub wait_is_over : Bool
  pub published : List (String × Topic × Event)

unfoldable pub new_events : Events
new_events = record { events = []; is_closed = false; wait_is_over = false; published = [] }

pub data Sent : Type 0 where
  accepted timed_out panicked : Sent

-- `Service.send`; `gives_up` says that its wait is done before it is served. Where the channel is full
-- it waits until then. A send on a closed channel panics.
unfoldable pub service_send : Events → Bool → String → Event → Events × Sent
service_send q gives_up ns e =
    if gives_up
    then (q, timed_out)
    else if q.is_closed
    then (q, panicked)
    else if ltb (length q.events) 128
    then (record q { events = q.events ++ (ns, e) ∷ [] }, accepted)
    else (q, timed_out)

-- One pass of `Forward`: it publishes the next event, waits for one, or ends.
unfoldable pub forward : Events → Events
forward q = elim q.events [
  | [] ↦ if q.is_closed then record q { wait_is_over = true } else q
  | (ns, e) ∷ rest ↦ record q {
    events = rest;
    published = q.published ++ (ns, get_topic e, e) ∷ [];
  }
]

-- The close of the channel in `Service.Close`, which then waits for `s.waitEvents`.
unfoldable pub close_events : Events → Events
close_events q = record q { is_closed = true }

pub data Traffic : Type 0 where
  sends : (gives_up : Bool) (ns : String) (e : Event) → Traffic
  forwards closes : Traffic

-- A run of the goroutines at the channel: the channel after it, and the events that were accepted.
unfoldable pub run : Events → List Traffic → Events × List (String × Event)
run q [] = (q, [])
run q (sends gives_up ns e ∷ rest) =
    let (q', sent) = service_send q gives_up ns e in
    let (r, es) = run q' rest in (r, elim sent [ accepted ↦ (ns, e) ∷ es | _ ↦ es ])
run q (forwards ∷ rest) = run (forward q) rest
run q (closes ∷ rest) = run (close_events q) rest

abbrev pub as_published : List (String × Event) → List (String × Topic × Event)
as_published [] = []
as_published ((ns, e) ∷ es) = (ns, get_topic e, e) ∷ as_published es

as_published-append :
    (es fs : List (String × Event)) → as_published (es ++ fs) ≡ as_published es ++ as_published fs
as_published-append [] fs = refl
as_published-append ((ns, e) ∷ es) fs =
    ap (λ l. (ns, get_topic e, e) ∷ l) (as_published-append es fs)

-- A channel that holds no more than it may, and is over only once it is closed and empty.
abbrev pub IsBounded : Events → Type 0
IsBounded q =
    (length q.events ≤ 128)
    × (q.wait_is_over ≡ true → q.is_closed ≡ true)
    × (q.wait_is_over ≡ true → q.events ≡ [])

-- What is published or waits in the channel.
abbrev pub through : Events → List (String × Topic × Event)
through q = q.published ++ as_published q.events

forward-through : (q : Events) → through (forward q) ≡ through q
unfolding forward
forward-through q = go q.events q.published q.is_closed q.wait_is_over
  where
    go :
        (es : List (String × Event)) (ps : List (String × Topic × Event)) (c w : Bool)
        → let q' : Events = record {
          events = es;
          is_closed = c;
          wait_is_over = w;
          published = ps;
        } in
          through (forward q') ≡ through q'
    go [] ps true w = refl
    go [] ps false w = refl
    go ((ns, e) ∷ es) ps c w = append_assoc ps ((ns, get_topic e, e) ∷ []) (as_published es)

forward-IsBounded : (q : Events) → IsBounded q → IsBounded (forward q)
unfolding forward
forward-IsBounded q h = ground (arith, h)

send-IsBounded :
    (q : Events) (gives_up : Bool) (ns : String) (e : Event)
    → IsBounded q
    → IsBounded (service_send q gives_up ns e).0
unfolding service_send
send-IsBounded q gives_up ns e (h, closed, empty) =
    let more = length-append q.events ((ns, e) ∷ []) in
    elim (Bool-cases q.wait_is_over) [
      | inl over ↦ let shut = closed over in ground (arith, h, over, shut, empty over)
      | inr runs ↦ ground (arith, h, runs, more)
    ]

-- The events that an answer of `send` stands for.
abbrev taken : Sent → String → Event → List (String × Event)
taken accepted ns e = (ns, e) ∷ []
taken _ ns e = []

send-through :
    (q : Events) (gives_up : Bool) (ns : String) (e : Event)
    → let (q', sent) = service_send q gives_up ns e in
      through q' ≡ through q ++ as_published (taken sent ns e)
unfolding service_send
send-through q gives_up ns e =
    let whole = through q in
    let queued : through (record q { events = q.events ++ (ns, e) ∷ [] })
        ≡ whole ++ as_published ((ns, e) ∷ []) =
      ap (λ l. q.published ++ l) (as_published-append q.events ((ns, e) ∷ []))
      ∙ sym (append_assoc q.published (as_published q.events) (as_published ((ns, e) ∷ []))) in
    elim (Bool-cases gives_up) [
      | inl a ↦ rw (a, service_send) (sym (append-nil whole))
      | inr a ↦ elim (Bool-cases q.is_closed) [
        | inl b ↦ rw (a, b, service_send) (sym (append-nil whole))
        | inr b ↦ elim (Bool-cases (ltb (length q.events) 128)) [
          | inl c ↦ rw (a, b, c, service_send) queued
          | inr c ↦ rw (a, b, c, service_send) (sym (append-nil whole))
        ]
      ]
    ]

run_lem :
    (q : Events) (todo : List Traffic)
    → IsBounded q
    → let (r, es) = run q todo in (through r ≡ through q ++ as_published es) × IsBounded r
unfolding run close_events
run_lem q [] h = (sym (append-nil (through q)), h)
run_lem q (forwards ∷ rest) h =
    let (flows, bounded) = run_lem (forward q) rest (forward-IsBounded q h) in
    (flows ∙ ap (λ l. l ++ as_published (run (forward q) rest).1) (forward-through q), bounded)
run_lem q (closes ∷ rest) (h, closed, empty) =
    run_lem (close_events q) rest (h, λ over. refl, empty)
run_lem q (sends gives_up ns e ∷ rest) h =
    let (q', sent) = service_send q gives_up ns e in
    let (r, es) = run q' rest in
    let (flows, bounded) = run_lem q' rest (send-IsBounded q gives_up ns e h) in
    let first = ap (λ l. l ++ as_published es) (send-through q gives_up ns e) in
    let joined = append_assoc (through q) (as_published (taken sent ns e)) (as_published es) in
    (flows ∙ (first ∙ (joined ∙ after sent)), bounded)
  where
    after :
        (sent : Sent)
        → through q
            ++ (as_published (taken sent ns e)
                ++ as_published (run (service_send q gives_up ns e).0 rest).1)
          ≡ through q
            ++ as_published (elim sent [
              | accepted ↦ (ns, e) ∷ (run (service_send q gives_up ns e).0 rest).1
              | _ ↦ (run (service_send q gives_up ns e).0 rest).1
            ])
    after accepted = refl
    after timed_out = refl
    after panicked = refl

-- Whether an event belongs to a topic, by what containerd's clients expect there.
abbrev pub is_topic_of : Event → Topic → Bool
is_topic_of (task_create c b i o e t k pid) task_create_event_topic = true
is_topic_of (task_start c pid) task_start_event_topic = true
is_topic_of (task_exit c x s t pid) task_exit_event_topic = true
is_topic_of (task_delete c pid s t) task_delete_event_topic = true
is_topic_of (task_exec_added c x) task_exec_added_event_topic = true
is_topic_of (task_exec_started c x pid) task_exec_started_event_topic = true
is_topic_of (task_other topic c) (other_topic t) = str_eq topic t
is_topic_of _ _ = false

-- What was published, without its topics; and whether each is on its topic.
abbrev pub envelopes : List (String × Topic × Event) → List (String × Event)
envelopes [] = []
envelopes ((ns, t, e) ∷ ps) = (ns, e) ∷ envelopes ps

abbrev pub all_on_topic : List (String × Topic × Event) → Bool
all_on_topic [] = true
all_on_topic ((ns, t, e) ∷ ps) = is_topic_of e t && all_on_topic ps

get_topic_lem : (e : Event) → is_topic_of e (get_topic e) ≡ true
unfolding get_topic
get_topic_lem (task_other topic c) = str_eq_refl topic
get_topic_lem _ = refl

as_published_lem :
    (es : List (String × Event))
    → (envelopes (as_published es) ≡ es) × (all_on_topic (as_published es) ≡ true)
as_published_lem [] = (refl, refl)
as_published_lem ((ns, e) ∷ es) =
    let (same, topics) = as_published_lem es in
    (ap (λ l. (ns, e) ∷ l) same, rw (get_topic_lem e, topics) refl)

-- What is published first, and what is still to be.
envelopes-append :
    (ps : List (String × Topic × Event)) (es : List (String × Event))
    → (envelopes (ps ++ as_published es) ≡ envelopes ps ++ es)
      × (all_on_topic (ps ++ as_published es) ≡ true → all_on_topic ps ≡ true)
envelopes-append [] es = ((as_published_lem es).0, λ h. refl)
envelopes-append ((ns, t, e) ∷ ps) es =
    let (same, topics) = envelopes-append ps es in
    (ap (λ l. (ns, e) ∷ l) same, λ h. ground (arith, topics, h))

-- Whatever is sent, by whichever goroutines, and whenever the channel is closed: the publisher is given
-- the events that `send` accepted, each once, on the topic of its kind and in their order; of them no
-- more than 128 wait, and none once `Forward` has told that it is over.
pub run-published :
    (todo : List Traffic)
    → let (r, es) = run new_events todo in
      (envelopes r.published ++ r.events ≡ es)
      × (all_on_topic r.published ≡ true)
      × (length r.events ≤ 128)
      × (r.wait_is_over ≡ true → envelopes r.published ≡ es)
unfolding new_events
run-published todo =
    let (r, es) = run new_events todo in
    let (flows, (bounded, _, empty)) =
      run_lem new_events todo (omega arith, λ over. absurd (cc), λ over. refl) in
    let (split, first) = envelopes-append r.published r.events in
    let (same, topics) = as_published_lem es in
    let all = sym split ∙ (ap envelopes flows ∙ same) in
    (
      all,
      first (ap all_on_topic flows ∙ topics),
      bounded,
      λ over.
          sym (append-nil (envelopes r.published))
          ∙ (ap (λ l. envelopes r.published ++ l) (sym (empty over)) ∙ all),
    )
