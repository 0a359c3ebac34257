-- ===== src/Tests/Sending.antt =====
-- Two sender threads of the client: one of a former epoch, with a popped message in its hands, and its successor.
use ccmeeting.Common.{◌≡◌, Bool, true, some, List, [], ◌∷◌, arith, codes}
use ccmeeting.Client.Message.{Message, Body, kind}
use ccmeeting.Client.Sending.{
  Hub, Sender, Event, holding, sending, turns, enqueues, starts, stops, is_returned, turn, events,
}
use ccmeeting.Client.Sending.Replaced.{count_by, count_by-events}
use ccmeeting.Client.Sending.Newest.{IsNewest, events-IsNewest}
use ccmeeting.Client.Sending.Kept.{count_all, count_all-turn}
use ccmeeting.Tests.FlatQt.{flat_qt}

abbrev create : Message
create = record { user_id = 0; body = Body.create_meeting 4 60 }

abbrev text : Message
text = record { user_id = 0; body = Body.send_text (codes "hi") }

abbrev old_thread : Sender
old_thread = record { epoch = 1; point = holding (some create) }

abbrev new_thread : Sender
new_thread = record { epoch = 3; point = sending text }

abbrev hub : Hub
hub = record {
  send_queue = record { control = []; text = [] };
  connected = true;
  send_running = true;
  send_epoch = 3;
  handed = [];
  discarded = [];
  finished_texts = 0;
}

abbrev returned : Message → Bool
returned m = is_returned (kind m.body)

-- The former thread gives its message back.
count_all-turn_example :
    let r = turn flat_qt 7 0 true (old_thread ∷ new_thread ∷ []) hub in
    count_all returned r.0 r.1 ≡ 2
unfolding is_returned kind
count_all-turn_example =
    count_all-turn returned flat_qt 7 (λ m h. h) 0 (old_thread ∷ new_thread ∷ []) hub
      (record { control_room = omega arith; text_room = omega arith })

abbrev some_events : List Event
some_events = turns 0 true ∷ turns 1 true ∷ enqueues true text ∷ turns 0 true ∷ starts ∷ []

-- It sends nothing, whatever happens.
count_by-events_example :
    count_by 1 (events flat_qt 7 some_events (old_thread ∷ new_thread ∷ []) hub).1.handed ≡ 0
count_by-events_example =
    count_by-events flat_qt 7 1 some_events (old_thread ∷ new_thread ∷ []) hub (omega arith)
      (omega arith) (tt, ((λ e. omega (arith, e)), tt))

abbrev restarts : List Event
restarts = starts ∷ turns 0 true ∷ starts ∷ turns 1 true ∷ stops ∷ []

-- Two threads, the newer one with epoch 7, and the hub's epoch 8.
events-IsNewest_example :
    IsNewest (events flat_qt 7 restarts [] hub).0 (events flat_qt 7 restarts [] hub).1.send_epoch
events-IsNewest_example = events-IsNewest flat_qt 7 restarts hub (omega arith)
