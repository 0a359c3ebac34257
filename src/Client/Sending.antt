-- ===== src/Client/Sending.antt =====
-- The sender threads of `MessageHub`, client/src/network/messageNet/messagehub.cpp. The state is what the
-- threads share, and for each thread where it is in `send_loop`; a step is the code between two accesses
-- to that state, but `signal_send_stop` and `start_send_worker`, whose stores a thread cannot tell apart:
-- its epoch has passed with the last of them. `join_send_thread` waits for three seconds at most, so a replaced thread may still run.
pub mod Replaced
pub mod Kept
pub mod Newest
use ccmeeting.Common.{
  ◌^◌, ◌%◌, ℕ, zero, suc, ◌+◌, Bool, true, false, not, Option, none, some, List, [], ◌∷◌, ◌==◌,
  if◌then◌else◌, length, Bytes,
}
use ccmeeting.Client.Message.{Message, MessageKind, kind}
use ccmeeting.Client.Queue.{Queue, push, pop, clear}
use ccmeeting.Client.Qt.{Qt}
use ccmeeting.Client.Codec.{encode_wire_frame}

-- A frame that `sendWireData` of the connection is invoked with, the message it encodes, and the
-- epoch of the thread that did it.
pub record Handed : Type 0 where
  pub by : ℕ
  pub message : Message
  pub frame : Bytes

-- What the threads share. `discarded` are the messages that a warning says were dropped, and
-- `finished_texts` counts `text_send_finished`.
pub record Hub : Type 0 where
  pub send_queue : Queue
  pub connected : Bool
  pub send_running : Bool
  pub send_epoch : ℕ
  pub handed : List Handed
  pub discarded : List Message
  pub finished_texts : ℕ

-- Where a thread is in `send_loop`: before the load of `send_running_`, before the load of
-- `send_epoch_`, before the pop, behind it, behind the second load of `send_epoch_`, behind the loop.
pub data Point : Type 0 where
  top running waiting : Point
  holding : Option Message → Point
  sending : Message → Point
  finished : Point

pub record Sender : Type 0 where
  pub epoch : ℕ
  pub point : Point

-- The kinds that a replaced thread gives back.
unfoldable pub is_returned : MessageKind → Bool
is_returned MessageKind.create_meeting = true
is_returned MessageKind.join_meeting = true
is_returned MessageKind.close_camera = true
is_returned MessageKind.send_text = true
is_returned _ = false

unfoldable pub is_text : MessageKind → Bool
is_text MessageKind.send_text = true
is_text _ = false

abbrev at : Sender → Point → Hub → Sender × Hub
at s point hub = (record s { point = point }, hub)

-- A replaced thread puts back what it has popped, if the queue's lock is got in time.
unfoldable pub give_back : (locked : Bool) → Option Message → Hub → Hub
unfolding is_returned
give_back locked none hub = hub
give_back locked (some m) hub =
    if is_returned (kind m.body)
    then record hub { send_queue = push locked m hub.send_queue }
    else hub

-- The thread goes on with what it has popped.
abbrev pub keep : Sender → Option Message → Hub → Sender × Hub
keep s none hub = at s top hub
keep s (some m) hub = at s (sending m) hub

module _ (q : Qt) (local_user_id : ℕ) where
  -- Behind both checks: the frame goes to the connection, if there are one and the other.
  unfoldable pub deliver : ℕ → Message → Hub → Hub
  unfolding is_text
  deliver own m hub =
      let frame = encode_wire_frame q m local_user_id in
      if not hub.connected
      then record hub { discarded = m ∷ hub.discarded }
      else if length frame == 0
      then record hub { discarded = m ∷ hub.discarded }
      else record hub {
        handed = record { by = own; message = m; frame = frame } ∷ hub.handed;
        finished_texts =
            if is_text (kind m.body) then hub.finished_texts + 1 else hub.finished_texts;
      }

  -- One step of `send_loop`.
  unfoldable pub advance : (locked : Bool) → Sender → Hub → Sender × Hub
  unfolding give_back deliver
  advance locked s hub = elim s.point [
    | top ↦ if hub.send_running then at s running hub else at s finished hub
    | running ↦ if hub.send_epoch == s.epoch then at s waiting hub else at s finished hub
    | waiting ↦
        at s (holding (pop hub.send_queue).0) (record hub { send_queue = (pop hub.send_queue).1 })
    | holding m ↦
        if hub.send_epoch == s.epoch then keep s m hub else at s finished (give_back locked m hub)
    | sending m ↦ at s top (deliver s.epoch m hub)
    | finished ↦ at s finished hub
  ]

  -- A step of the thread at a position of the list of threads.
  unfoldable pub turn : ℕ → (locked : Bool) → List Sender → Hub → List Sender × Hub
  unfolding advance
  turn i locked [] hub = ([], hub)
  turn zero locked (s ∷ senders) hub = let r = advance locked s hub in (r.0 ∷ senders, r.1)
  turn (suc i) locked (s ∷ senders) hub = let r = turn i locked senders hub in (s ∷ r.0, r.1)

-- `send_epoch_.fetch_add(1) + 1`, of 64 bits
abbrev pub next_epoch : ℕ → ℕ
next_epoch n = (n + 1) % 2 ^ 64

-- `signal_send_stop`
unfoldable pub signal_send_stop : Hub → Hub
signal_send_stop hub = record hub { send_running = false; send_epoch = next_epoch hub.send_epoch }

-- `start_send_worker`, where `join_send_thread` did not wait: a new thread, with an epoch of its own.
unfoldable pub start_send_worker : List Sender → Hub → List Sender × Hub
unfolding signal_send_stop
start_send_worker senders hub =
    let stopped = signal_send_stop hub in
    let epoch = next_epoch stopped.send_epoch in
    (
      record { epoch = epoch; point = top } ∷ senders,
      record stopped { send_epoch = epoch; send_running = true },
    )

-- `enqueue_send`
abbrev enqueue_send : (locked : Bool) → Message → Hub → Hub
enqueue_send locked m hub = record hub { send_queue = push locked m hub.send_queue }

-- `clear_all`
abbrev clear_all : (locked : Bool) → Hub → Hub
clear_all locked hub = record hub { send_queue = clear locked hub.send_queue }

-- `start` with a connection or, in `stop`, the loss of it
abbrev start : Bool → Hub → Hub
start connected hub = record hub { connected = connected }

-- What can happen: a step of a thread, and the calls of the hub.
pub data Event : Type 0 where
  turns : ℕ → (locked : Bool) → Event
  enqueues : (locked : Bool) → Message → Event
  clears : (locked : Bool) → Event
  stops starts : Event
  connects : Bool → Event

module _ (q : Qt) (local_user_id : ℕ) where
  unfoldable pub event : Event → List Sender → Hub → List Sender × Hub
  unfolding turn signal_send_stop start_send_worker
  event (turns i locked) senders hub = turn q local_user_id i locked senders hub
  event (enqueues locked m) senders hub = (senders, enqueue_send locked m hub)
  event (clears locked) senders hub = (senders, clear_all locked hub)
  event stops senders hub = (senders, signal_send_stop hub)
  event starts senders hub = start_send_worker senders hub
  event (connects connected) senders hub = (senders, start connected hub)

  unfoldable pub events : List Event → List Sender → Hub → List Sender × Hub
  unfolding event
  events [] senders hub = (senders, hub)
  events (e ∷ es) senders hub = let r = event e senders hub in events es r.0 r.1
