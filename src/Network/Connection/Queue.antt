-- ===== src/Network/Connection/Queue.antt =====
-- Messages leave in the order in which they were sent, each once, one write at a time.
use ccmeeting.Common.{
  ◌≡◌, refl, ◌∙◌, true, false, ◌||◌, not, List, [], ◌∷◌, ◌++◌, append_assoc, arith, ◌==◌,
  if◌then◌else◌, length, Bytes,
}
use ccmeeting.Network.Connection.{
  Connection, new_connection, do_write, is_empty, send, written, pop_front, write_completed,
}

-- All that was accepted for sending, in order.
abbrev pub accepted : Connection → List Bytes
accepted c = c.delivered ++ c.write_queue

-- Where the queue is not empty a write is under way, and only there.
pub record IsValid (c : Connection) : Type 0 where
  pub busy : c.closed ≡ false → is_empty c.write_queue ≡ not c.write_in_progress
  pub owed : c.write_in_progress ≡ true → is_empty c.write_queue ≡ false

pub new_connection-IsValid : IsValid new_connection
unfolding new_connection is_empty
new_connection-IsValid = record { busy = λ _. refl; owed = λ h. cc }

is_empty-append : (ms : List Bytes) (m : Bytes) → is_empty (ms ++ (m ∷ [])) ≡ false
unfolding is_empty
is_empty-append [] m = refl
is_empty-append (x ∷ ms) m = refl

-- If an open connection has a write under way exactly when its queue is not empty, and no write is
-- under way over an empty queue, both still hold after send.
pub send-IsValid : (message : Bytes) (c : Connection) → IsValid c → IsValid (send message c)
unfolding send do_write
send-IsValid message c v = ground (arith, is_empty-append c.write_queue message)

-- The sequence of delivered and queued messages is extended at its end by a non-empty message that
-- is sent on an open connection, and stays the same if the connection is closed or the message is
-- empty.
pub accepted-send :
    (message : Bytes) (c : Connection)
    → accepted (send message c)
      ≡ (if c.closed || length message == 0 then accepted c else accepted c ++ (message ∷ []))
unfolding send do_write
accepted-send message c = ground (arith, append_assoc c.delivered c.write_queue (message ∷ []))

accepted-do_write : (c : Connection) → accepted (do_write c) ≡ accepted c
unfolding do_write
accepted-do_write c = ground arith

append-pop_front : (q delivered : List Bytes) → written q delivered ++ pop_front q ≡ delivered ++ q
unfolding written pop_front
append-pop_front [] delivered = refl
append-pop_front (m ∷ ms) delivered = append_assoc delivered (m ∷ []) ms

-- The connection behind a write, before the next one.
abbrev popped : Connection → Connection
popped c = record c {
  delivered = written c.write_queue c.delivered;
  write_in_progress = false;
  write_queue = pop_front c.write_queue;
}

-- When a write completes, the message that was written joins the delivered ones and leaves the
-- queue: the delivered messages followed by the queued ones are the same sequence as before, with
-- none lost, repeated or reordered.
pub accepted-write_completed : (c : Connection) → accepted (write_completed c) ≡ accepted c
unfolding write_completed
accepted-write_completed c =
    accepted-do_write (popped c) ∙ append-pop_front c.write_queue c.delivered

-- After a completed write, an open connection has a write under way exactly when its queue is not
-- empty, and no write is under way over an empty queue.
pub write_completed-IsValid : (c : Connection) → IsValid (write_completed c)
unfolding write_completed do_write is_empty
write_completed-IsValid c = ground arith

do_write_flags :
    (c : Connection)
    → ((do_write c).closed ≡ c.closed)
      × ((do_write c).close_handler ≡ c.close_handler)
      × ((do_write c).read_buffer ≡ c.read_buffer)
unfolding do_write
do_write_flags c = ground arith

-- A completed write changes the queue only.
pub write_completed_flags :
    (c : Connection)
    → ((write_completed c).closed ≡ c.closed)
      × ((write_completed c).close_handler ≡ c.close_handler)
      × ((write_completed c).read_buffer ≡ c.read_buffer)
unfolding write_completed
write_completed_flags c = do_write_flags (popped c)
