-- ===== src/Client/Sending/Kept.antt =====
-- No step of a thread loses a message of the kinds that a replaced thread gives back.
use ccmeeting.Common.{
  if_both, ℕ, zero, suc, ◌+◌, ◌-◌, ◌<◌, ◌≡◌, refl, sym, ap, ◌∙◌, Bool, true, not, Option, none,
  some, List, [], ◌∷◌, ◌++◌, arith, ◌==◌, if◌then◌else◌, true-ne-false, length, drop,
}
use ccmeeting.Client.Message.{Message, MessagePriority, kind, send_priority}
use ccmeeting.Client.Qt.{Qt}
use ccmeeting.Client.Codec.{encode_wire_frame}
use ccmeeting.Client.Queue.{Queue, queue_max_size, push_bounded, put, push, pop}
use ccmeeting.Client.Queue.Order.{push_bounded-drop}
use ccmeeting.Client.Sending.{
  Handed, Hub, Point, top, running, waiting, holding, sending, finished, Sender, is_returned,
  give_back, deliver, keep, advance, turn,
}

-- The queue has room in both buckets.
pub record HasRoom (queue : Queue) : Type 0 where
  pub control_room : length queue.control < queue_max_size
  pub text_room : length queue.text < queue_max_size

push_bounded_room :
    (bucket : List Message) (m : Message)
    → length bucket < queue_max_size
    → push_bounded queue_max_size bucket m ≡ bucket ++ (m ∷ [])
push_bounded_room bucket m h =
    let e : length bucket + 1 - queue_max_size ≡ 0 = omega arith in
    push_bounded-drop queue_max_size bucket m (omega arith)
    ∙ ap (λ (n : ℕ). drop n (bucket ++ (m ∷ []))) e

module _ (p : Message → Bool) where
  abbrev pub weight : Message → ℕ
  weight m = if p m then 1 else 0

  abbrev pub count : List Message → ℕ
  count [] = 0
  count (m ∷ ms) = weight m + count ms

  -- The messages in the thread's hands.
  abbrev pub held : Point → ℕ
  held (holding (some m)) = weight m
  held (sending m) = weight m
  held _ = 0

  abbrev pub count_handed : List Handed → ℕ
  count_handed [] = 0
  count_handed (h ∷ hs) = weight h.message + count_handed hs

  abbrev pub count_held : List Sender → ℕ
  count_held [] = 0
  count_held (s ∷ ss) = held s.point + count_held ss

  abbrev pub count_queue : Queue → ℕ
  count_queue queue = count queue.control + count queue.text

  abbrev pub count_hub : Hub → ℕ
  count_hub hub = count_queue hub.send_queue + count_handed hub.handed + count hub.discarded

  -- Where the messages that `p` tells are: in the queue, in a thread's hands, handed to the connection,
  -- or dropped with a warning.
  abbrev pub count_all : List Sender → Hub → ℕ
  count_all senders hub = count_held senders + count_hub hub

  count-append : (a b : List Message) → count (a ++ b) ≡ count a + count b
  count-append [] b = omega arith
  count-append (m ∷ a) b = omega (arith, count-append a b)

  count-put :
      (t : MessagePriority) (m : Message) (queue : Queue)
      → HasRoom queue
      → count_queue (put t m queue) ≡ count_queue queue + weight m
  count-put MessagePriority.control m queue h =
      ap (λ (b : List Message). count b + count queue.text)
        (push_bounded_room queue.control m h.control_room)
      ∙ omega (arith, count-append queue.control (m ∷ []))
  count-put MessagePriority.text m queue h =
      ap (λ (b : List Message). count queue.control + count b)
        (push_bounded_room queue.text m h.text_room)
      ∙ omega (arith, count-append queue.text (m ∷ []))

  count-push :
      (m : Message) (queue : Queue)
      → HasRoom queue
      → count_queue (push true m queue) ≡ count_queue queue + weight m
  unfolding push
  count-push m queue h = count-put (send_priority m.body) m queue h

  count_at-pop :
      (control text : List Message)
      → let r = pop (record { control = control; text = text }) in
        held (holding r.0) + count_queue r.1 ≡ count control + count text
  unfolding pop
  count_at-pop [] [] = omega arith
  count_at-pop [] (m ∷ text) = omega arith
  count_at-pop (m ∷ control) text = omega arith

  module _ (q : Qt) (local_user_id : ℕ) where
    count-deliver :
        (own : ℕ) (m : Message) (hub : Hub)
        → count_hub (deliver q local_user_id own m hub) ≡ weight m + count_hub hub
    unfolding deliver
    count-deliver own m hub =
        if_both (λ (h : Hub). count_hub h ≡ weight m + count_hub hub) (not hub.connected) _ _
          (λ t. omega arith)
          (λ t.
            if_both (λ (h : Hub). count_hub h ≡ weight m + count_hub hub)
              (length (encode_wire_frame q m local_user_id) == 0) _ _ (λ t. omega arith)
              (λ t. omega arith))

    module _ (returned : (m : Message) → p m ≡ true → is_returned (kind m.body) ≡ true) where
      count-give_back :
          (m : Option Message) (hub : Hub)
          → HasRoom hub.send_queue
          → count_hub (give_back true m hub) ≡ held (holding m) + count_hub hub
      unfolding give_back
      count-give_back none hub h = omega arith
      count-give_back (some m) hub h =
          if_both (λ (r : Hub). count_hub r ≡ weight m + count_hub hub) (is_returned (kind m.body))
            _ _ (λ t. omega (arith, count-push m hub.send_queue h))
            (λ t.
              if_both (λ (w : ℕ). count_hub hub ≡ w + count_hub hub) (p m) _ _
                (λ u. absurd (true-ne-false (sym (returned m u) ∙ t))) (λ u. omega arith))

      abbrev Same : Sender → Hub → Sender × Hub → Type 0
      Same s hub r = held r.0.point + count_hub r.1 ≡ held s.point + count_hub hub

      count-keep :
          (m : Option Message) (own : ℕ) (hub : Hub)
          → Same
              (record { epoch = own; point = holding m })
              hub
              (keep (record { epoch = own; point = holding m }) m hub)
      count-keep none own hub = refl
      count-keep (some m) own hub = refl

      count-advance :
          (own : ℕ) (point : Point) (hub : Hub)
          → HasRoom hub.send_queue
          → Same
              (record { epoch = own; point = point })
              hub
              (advance q local_user_id true (record { epoch = own; point = point }) hub)
      unfolding advance
      count-advance own top hub h =
          if_both (Same (record { epoch = own; point = top }) hub) hub.send_running _ _ (λ t. refl)
            (λ t. refl)
      count-advance own running hub h =
          if_both (Same (record { epoch = own; point = running }) hub) (hub.send_epoch == own) _ _
            (λ t. refl) (λ t. refl)
      count-advance own waiting hub h =
          omega (arith, count_at-pop hub.send_queue.control hub.send_queue.text)
      count-advance own (holding m) hub h =
          if_both (Same (record { epoch = own; point = holding m }) hub) (hub.send_epoch == own) _ _
            (λ t. count-keep m own hub)
            (λ t.
              let out = give_back true m hub in
              let e : 0 + count_hub out ≡ count_hub out = omega arith in
              e ∙ count-give_back m hub h)
      count-advance own (sending m) hub h =
          let out = deliver q local_user_id own m hub in
          let e : 0 + count_hub out ≡ count_hub out = omega arith in e ∙ count-deliver own m hub
      count-advance own finished hub h = refl

      -- For a predicate that holds of messages of the returned kinds only, a step of any sender
      -- thread, in a hub whose queue has room in both buckets and whose lock is got, leaves the
      -- number of such messages in the queue, in the threads' hands, handed to the connection or
      -- dropped with a warning as it was: a replaced thread gives back what it has popped.
      pub count_all-turn :
          (i : ℕ) (senders : List Sender) (hub : Hub)
          → HasRoom hub.send_queue
          → let r = turn q local_user_id i true senders hub in
            count_all r.0 r.1 ≡ count_all senders hub
      unfolding turn
      count_all-turn zero [] hub h = refl
      count_all-turn (suc i) [] hub h = refl
      count_all-turn zero (s ∷ senders) hub h = omega (arith, count-advance s.epoch s.point hub h)
      count_all-turn (suc i) (s ∷ senders) hub h = omega (arith, count_all-turn i senders hub h)
