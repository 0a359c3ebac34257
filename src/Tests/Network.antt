-- ===== src/Tests/Network.antt =====
-- The buffer and the connection.
use ccmeeting.Common.{◌≡◌, true, [], ◌∷◌, ◌++◌, arith}
use ccmeeting.Network.Buffer.{Buffer, readable, write}
use ccmeeting.Network.Buffer.Content.{IsValid, write-IsValid, readable-write}
use ccmeeting.Network.Connection.{Connection, new_connection, send, write_completed}
use ccmeeting.Network.Connection.Queue
use ccmeeting.Network.Connection.Queue.{
  accepted, send-IsValid, accepted-send, accepted-write_completed, new_connection-IsValid,
  write_completed-IsValid,
}

-- Two bytes are readable and one is free, so that a write of two moves them to the front.
abbrev small : Buffer
small = record { buffer = 1 ∷ 2 ∷ 3 ∷ 4 ∷ []; read_pos = 1; write_pos = 3 }

small-IsValid : IsValid small
small-IsValid = record { ordered = omega arith; bounded = omega arith }

write-IsValid_example : IsValid (write (8 ∷ 9 ∷ []) small)
write-IsValid_example = write-IsValid (8 ∷ 9 ∷ []) small small-IsValid

readable-write_example : readable (write (8 ∷ 9 ∷ []) small) ≡ readable small ++ (8 ∷ 9 ∷ [])
readable-write_example = readable-write (8 ∷ 9 ∷ []) small small-IsValid

send-IsValid_example : Queue.IsValid (send (5 ∷ []) new_connection)
send-IsValid_example = send-IsValid (5 ∷ []) new_connection new_connection-IsValid

accepted-send_example :
    accepted (send (5 ∷ []) new_connection) ≡ accepted new_connection ++ ((5 ∷ []) ∷ [])
unfolding new_connection
accepted-send_example = accepted-send (5 ∷ []) new_connection

-- A message is under way and one waits.
abbrev busy : Connection
busy = record new_connection { write_queue = (5 ∷ []) ∷ (6 ∷ []) ∷ []; write_in_progress = true }

accepted-write_completed_example : accepted (write_completed busy) ≡ accepted busy
accepted-write_completed_example = accepted-write_completed busy
