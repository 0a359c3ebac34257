-- ===== src/Network/Connection.antt =====
-- The connection of message_server/src/network/connection.cpp: its send queue, of which one message
-- at a time is written to the WebSocket, and its flags. The WebSocket itself is Boost.Beast's; what
-- it has written completely is kept in `delivered`. `is_open` asks the socket too, which is open
-- until `close` closes it.
pub mod Queue
use ccmeeting.Common.{
  ◌==◌, ◌++◌, ◌^◌, ◌∷◌, ◌%◌, ◌||◌, not, true, [], if◌then◌else◌, List, false, length, Bool, Bytes,
}
use ccmeeting.Wire.{write_uint32_be}
use ccmeeting.Network.Buffer.{Buffer, init_buffer_size, make, write}

pub record Connection : Type 0 where
  pub closed : Bool
  -- Whether `_close_handler` is set.
  pub close_handler : Bool
  pub read_buffer : Buffer
  pub write_queue : List Bytes
  pub write_in_progress : Bool
  pub delivered : List Bytes

-- `Connection(...)`, before the service has set its handlers.
unfoldable pub new_connection : Connection
new_connection = record {
  closed = false;
  close_handler = false;
  read_buffer = make init_buffer_size;
  write_queue = [];
  write_in_progress = false;
  delivered = [];
}

abbrev pub is_open : Connection → Bool
is_open c = not c.closed

unfoldable pub is_empty : List Bytes → Bool
is_empty [] = true
is_empty (m ∷ ms) = false

-- `do_write`: hands the front of the queue to `async_write`.
do_write : Connection → Connection
unfolding is_empty
do_write c =
    if c.write_in_progress || is_empty c.write_queue || c.closed
    then c
    else record c { write_in_progress = true }

-- `send(data, length)`
unfoldable pub send : Bytes → Connection → Connection
unfolding do_write
send message c =
    if c.closed || length message == 0
    then c
    else do_write (record c { write_queue = c.write_queue ++ (message ∷ []) })

-- The WebSocket has written the buffer that `do_write` handed to it, the front of the queue.
unfoldable pub written : List Bytes → List Bytes → List Bytes
written [] delivered = delivered
written (m ∷ ms) delivered = delivered ++ (m ∷ [])

-- `_write_queue.pop()`
unfoldable pub pop_front : List Bytes → List Bytes
pop_front [] = []
pop_front (m ∷ ms) = ms

-- `async_write` completes without an error.
unfoldable pub write_completed : Connection → Connection
unfolding do_write written pop_front
write_completed c =
    let c' = record c {
      delivered = written c.write_queue c.delivered;
      write_in_progress = false;
    } in
    do_write (record c' { write_queue = pop_front c'.write_queue })

-- The read handler's first part: the message goes into the buffer behind its length.
unfoldable pub receive : Bytes → Connection → Connection
receive message c = record c {
  read_buffer = write message (write (write_uint32_be (length message % 2 ^ 32)) c.read_buffer);
}
