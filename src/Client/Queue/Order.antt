-- ===== src/Client/Queue/Order.antt =====
-- What the queue promises: it is bounded, the oldest messages give way, and control messages overtake.
use ccmeeting.Common.{
  ℕ, zero, suc, ◌+◌, ◌-◌, ◌≤◌, ◌≡◌, refl, sym, ap, inl, inr, Bool, true, false, none, some, List,
  [], ◌∷◌, ◌++◌, arith, leb, leb→le, ==_ne, Bool-cases, length, drop, length-append, length-drop,
  drop-append_le,
}
use ccmeeting.Client.Message.{Message, MessagePriority, send_priority}
use ccmeeting.Client.Queue.{Queue, queue_max_size, pop_while, push_bounded, put, push, pop, clear}

pop_while-drop :
    (n : ℕ) (bucket : List Message)
    → 1 ≤ n
    → pop_while n bucket ≡ drop (length bucket + 1 - n) bucket
unfolding pop_while
pop_while-drop n [] h = drop_nothing (0 + 1 - n)
  where
    drop_nothing : (k : ℕ) → ◌≡◌ {A = List Message} [] (drop k [])
    drop_nothing zero = refl
    drop_nothing (suc k) = refl
pop_while-drop n (m ∷ bucket) h = elim (Bool-cases (leb n (length (m ∷ bucket)))) [
  | inl full ↦
      let e : length (m ∷ bucket) + 1 - n ≡ suc (length bucket + 1 - n) =
        omega (arith, leb→le n (length (m ∷ bucket)) full) in
      rw (full, e, pop_while) (pop_while-drop n bucket h)
  | inr room ↦
      let e : length (m ∷ bucket) + 1 - n ≡ 0 = ground (arith, room) in rw (room, e, pop_while) refl
]

-- With a limit of at least one, a bounded push leaves the last messages, as many as the limit, of
-- the bucket followed by the new message: the oldest ones give way.
pub push_bounded-drop :
    (n : ℕ) (bucket : List Message) (msg : Message)
    → 1 ≤ n
    → push_bounded n bucket msg ≡ drop (length bucket + 1 - n) (bucket ++ (msg ∷ []))
unfolding push_bounded
push_bounded-drop n bucket msg h =
    rw (==_ne n 0 (omega arith), pop_while-drop n bucket h)
      (sym (drop-append_le (length bucket + 1 - n) bucket (msg ∷ []) (omega arith)))

length-push_bounded :
    (n : ℕ) (bucket : List Message) (msg : Message)
    → 1 ≤ n
    → length bucket ≤ n
    → length (push_bounded n bucket msg) ≤ n
length-push_bounded n bucket msg h small = rw (push_bounded-drop n bucket msg h) (
    omega (
      arith,
      length-drop (length bucket + 1 - n) (bucket ++ (msg ∷ [])),
      length-append bucket (msg ∷ []),
    ))

-- A call of the queue, and how a sequence of them changes it.
pub data Call : Type 0 where
  pushes : (locked : Bool) → Message → Call
  pops : Call
  clears : (locked : Bool) → Call

abbrev pub call : Call → Queue → Queue
call (pushes locked msg) q = push locked msg q
call pops q = (pop q).1
call (clears locked) q = clear locked q

abbrev pub run : List Call → Queue → Queue
run [] q = q
run (c ∷ cs) q = run cs (call c q)

abbrev pub new_queue : Queue
new_queue = record { control = []; text = [] }

pub record IsBounded (q : Queue) : Type 0 where
  pub control_bounded : length q.control ≤ queue_max_size
  pub text_bounded : length q.text ≤ queue_max_size

put-IsBounded :
    (p : MessagePriority) (msg : Message) (q : Queue) → IsBounded q → IsBounded (put p msg q)
put-IsBounded MessagePriority.control msg q v = record {
  control_bounded = length-push_bounded _ q.control msg (omega arith) v.control_bounded;
  text_bounded = v.text_bounded;
}
put-IsBounded MessagePriority.text msg q v = record {
  control_bounded = v.control_bounded;
  text_bounded = length-push_bounded _ q.text msg (omega arith) v.text_bounded;
}

pop-IsBounded :
    (control text : List Message)
    → IsBounded (record { control = control; text = text })
    → IsBounded (pop (record { control = control; text = text })).1
unfolding pop
pop-IsBounded [] [] v = v
pop-IsBounded [] (m ∷ text) v = record {
  control_bounded = v.control_bounded;
  text_bounded = omega (arith, v.text_bounded);
}
pop-IsBounded (m ∷ control) text v = record {
  control_bounded = omega (arith, v.control_bounded);
  text_bounded = v.text_bounded;
}

call-IsBounded : (c : Call) (q : Queue) → IsBounded q → IsBounded (call c q)
unfolding push clear
call-IsBounded (pushes true msg) q v = put-IsBounded (send_priority msg.body) msg q v
call-IsBounded (pushes false msg) q v = v
call-IsBounded pops q v = pop-IsBounded q.control q.text v
call-IsBounded (clears true) q v = record {
  control_bounded = omega arith;
  text_bounded = omega arith;
}
call-IsBounded (clears false) q v = v

run-IsBounded_from : (cs : List Call) (q : Queue) → IsBounded q → IsBounded (run cs q)
run-IsBounded_from [] q v = v
run-IsBounded_from (c ∷ cs) q v = run-IsBounded_from cs (call c q) (call-IsBounded c q v)

-- After any sequence of pushes, pops and clears of a new queue, whether their locks were got or
-- not, each bucket holds at most 1500 messages.
pub run-IsBounded : (cs : List Call) → IsBounded (run cs new_queue)
run-IsBounded cs =
    run-IsBounded_from cs new_queue
      (record { control_bounded = omega arith; text_bounded = omega arith })

-- What `n` calls of `pop` return.
abbrev pub popped : ℕ → Queue → List Message
popped zero q = []
popped (suc n) q = elim (pop q).0 [ none ↦ popped n (pop q).1 | some m ↦ m ∷ popped n (pop q).1 ]

popped_text :
    (text : List Message) → popped (length text) (record { control = []; text = text }) ≡ text
unfolding pop
popped_text [] = refl
popped_text (m ∷ text) = ap (λ t. m ∷ t) (popped_text text)

popped_control :
    (control text : List Message)
    → popped (length control + length text) (record { control = control; text = text })
      ≡ control ++ text
unfolding pop
popped_control [] text =
    let e : 0 + length text ≡ length text = omega arith in rw e (popped_text text)
popped_control (m ∷ control) text =
    let e : length (m ∷ control) + length text ≡ suc (length control + length text) = omega arith in
    rw e (ap (λ t. m ∷ t) (popped_control control text))

-- As many pops as a queue holds messages return every one of them, the control messages before the
-- texts and each kind in the order of its bucket.
pub popped-all : (q : Queue) → popped (length q.control + length q.text) q ≡ q.control ++ q.text
popped-all q = popped_control q.control q.text
