-- ===== src/Outbox.antt =====
-- events.go: `eventOutbox`, which publishes the task events of one process in an order that
-- containerd can make sense of. What `Service.send` answers (whether the publish queue had room
-- in time) is a parameter, over a world of its own.

pub mod Order
pub mod Held
pub mod Count
pub mod Channel
use containerd_shim_systemd.Prelude.{
  ℕ, zero, suc, Bool, true, false, ◌||◌, ◌&&◌, not, String, List, [], ◌∷◌, ◌++◌, if◌then◌else◌,
  length,
}

-- The events of the containerd API, with the fields that the shim sets (but for the root file
-- system's mounts). Times are those of State/Time.
pub data Event : Type 0 where
  task_create :
      (container_id bundle stdin stdout stderr : String) (terminal : Bool) (checkpoint : String)
      (pid : ℕ)
      → Event
  task_start : (container_id : String) (pid : ℕ) → Event
  task_exit : (container_id id : String) (exit_status exited_at pid : ℕ) → Event
  task_delete : (container_id : String) (pid exit_status exited_at : ℕ) → Event
  task_exec_added : (container_id exec_id : String) → Event
  task_exec_started : (container_id exec_id : String) (pid : ℕ) → Event
  task_other : (topic container_id : String) → Event

pub record Outbox : Type 0 where
  pub ns : String
  pub known : Bool
  pub started : Bool
  pub deleted : Bool
  pub held : List Event

unfoldable pub new_event_outbox : String → Outbox
new_event_outbox ns = record { ns = ns; known = false; started = false; deleted = false; held = [] }

-- The switch of `publishable`.
abbrev precondition : Outbox → Event → Bool
precondition o (task_exit c i s t p) = o.started
precondition o (task_delete c p s t) = o.known
precondition o _ = true

unfoldable pub publishable : Outbox → Event → Bool
publishable o evt = if o.deleted then false else precondition o evt

-- `record`, a reserved word here.
unfoldable pub record_event : Outbox → Event → Outbox
record_event o (task_create c b i e r t k p) = record o { known = true }
record_event o (task_exec_added c x) = record o { known = true }
record_event o (task_start c p) = record o { started = true }
record_event o (task_exec_started c x p) = record o { started = true }
record_event o (task_delete c p s t) = record o { deleted = true }
record_event o _ = o

-- One pass of `flush`: the flags and the world after it, what it held back and what it handed
-- over, oldest first.
pub record PassResult (W : Type 0) : Type 0 where
  pub box : Outbox
  pub kept : List Event
  pub published : List Event
  pub sent : Bool
  pub stalled : Bool
  pub world : W

-- `Send` as a whole: the outbox and the world after it, what was handed over, whether the last pass
-- stalled on a failed send, and whether the passes came to an end within their fuel.
pub record FlushResult (W : Type 0) : Type 0 where
  pub box : Outbox
  pub published : List Event
  pub stalled : Bool
  pub ended : Bool
  pub world : W

module _ {W : Type 0} where
  -- The pass over an empty queue.
  abbrev pass_end : Outbox → W → PassResult W
  pass_end o w = record {
    box = o;
    kept = [];
    published = [];
    sent = false;
    stalled = false;
    world = w;
  }

  -- An event that is not publishable yet stays ahead of what the rest of the pass keeps.
  abbrev hold_back : Event → PassResult W → PassResult W
  hold_back evt r = record r { kept = evt ∷ r.kept }

  -- A send that fails keeps the event and all behind it, and ends the pass.
  abbrev stall : Outbox → List Event → W → PassResult W
  stall o es w = record {
    box = o;
    kept = es;
    published = [];
    sent = false;
    stalled = true;
    world = w;
  }

  abbrev hand_over : Event → PassResult W → PassResult W
  hand_over evt r = record r { published = evt ∷ r.published; sent = true }

  abbrev flush_end : PassResult W → FlushResult W
  flush_end r = record {
    box = record r.box { held = r.kept };
    published = r.published;
    stalled = r.stalled;
    ended = true;
    world = r.world;
  }

  abbrev flush_more : PassResult W → FlushResult W → FlushResult W
  flush_more r more = record more { published = r.published ++ more.published }

module _ {W : Type 0} (send : W → String → Event → Bool × W) where
  -- The loop over `o.held`, from the event on that the list begins with.
  unfoldable pub flush_pass : Outbox → List Event → W → PassResult W
  flush_pass o [] w = pass_end o w
  flush_pass o (evt ∷ es) w =
      let held_back = hold_back evt (flush_pass o es w) in
      let (ok, w') = send w o.ns evt in
      let sent = hand_over evt (flush_pass (record_event o evt) es w') in
      if not (publishable o evt) then held_back else if not ok then stall o (evt ∷ es) w' else sent

  -- `flush`: passes until one sends nothing or stalls.
  unfoldable pub flush : ℕ → Outbox → W → FlushResult W
  unfolding flush_pass
  flush zero o w = record { box = o; published = []; stalled = false; ended = false; world = w }
  flush (suc fuel) o w =
      let r = flush_pass o o.held w in
      let more = flush_more r (flush fuel (record r.box { held = r.kept }) r.world) in
      if not r.sent || r.stalled then flush_end r else more

  -- `Send`, with a pass for each held event and one more.
  unfoldable pub send_event : Outbox → Event → W → FlushResult W
  unfolding flush
  send_event o evt w =
      let held = o.held ++ evt ∷ [] in flush (suc (length held)) (record o { held = held }) w

  -- A process's events, one `Send` after the other: the outbox at the end, and all that was handed
  -- over, oldest first.
  unfoldable pub send_all : Outbox → List Event → W → FlushResult W
  send_all o [] w = record { box = o; published = []; stalled = false; ended = true; world = w }
  send_all o (evt ∷ evts) w =
      let r = send_event o evt w in
      let rest = send_all r.box evts r.world in
      record rest { published = r.published ++ rest.published; ended = r.ended && rest.ended }
