-- ===== src/Client/Queue.antt =====
-- `PriorityMessageQueue` of client/src/network/messageNet/message.cpp. A call is one step under the
-- lock: a `push` or a `clear` that gives up on the lock does nothing, and a `pop` that times out
-- finds the queue empty.

pub mod Order
use ccmeeting.Common.{
  ℕ, Bool, Option, none, some, List, [], ◌∷◌, ◌++◌, leb, ◌==◌, if◌then◌else◌, length,
}
use ccmeeting.Client.Message.{Message, MessagePriority, send_priority}

-- `QUEUE_MAXSIZE`
abbrev pub queue_max_size : ℕ
queue_max_size = 1500

-- `buckets_`, by priority
pub record Queue : Type 0 where
  pub control : List Message
  pub text : List Message

-- `while (bucket.size() >= max_size) bucket.pop_front()`, on as much fuel as there are elements.
unfoldable pub pop_while : ℕ → List Message → List Message
pop_while max_size [] = []
pop_while max_size (m ∷ bucket) =
    let rest = pop_while max_size bucket in
    if leb max_size (length (m ∷ bucket)) then rest else m ∷ bucket

-- `push_bounded`
unfoldable pub push_bounded : ℕ → List Message → Message → List Message
unfolding pop_while
push_bounded max_size bucket msg =
    if max_size == 0 then bucket else pop_while max_size bucket ++ (msg ∷ [])

-- The message in the bucket of its priority.
abbrev pub put : MessagePriority → Message → Queue → Queue
put MessagePriority.control msg q = record q { control = push_bounded queue_max_size q.control msg }
put MessagePriority.text msg q = record q { text = push_bounded queue_max_size q.text msg }

-- `push` of a message: whether the lock was got in time decides if it enters the queue.
unfoldable pub push : (locked : Bool) → Message → Queue → Queue
push locked msg q = if locked then put (send_priority msg.body) msg q else q

-- The loop of `pop` over the buckets.
unfoldable pub pop : Queue → Option Message × Queue
pop q = elim q.control [
  | m ∷ rest ↦ (some m, record q { control = rest })
  | [] ↦ elim q.text [ m ∷ rest ↦ (some m, record q { text = rest }) | [] ↦ (none, q) ]
]

-- `clear`: `locked` where one of its eight attempts gets the lock.
unfoldable pub clear : (locked : Bool) → Queue → Queue
clear locked q = if locked then record { control = []; text = [] } else q
