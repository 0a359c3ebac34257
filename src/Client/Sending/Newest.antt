-- ===== src/Client/Sending/Newest.antt =====
-- The epochs of the threads: each is its thread's own, and only the newest can be the current one.
use ccmeeting.Common.{
  if_both, ℕ, zero, suc, ◌+◌, ◌*◌, ◌^◌, ◌≤◌, ◌<◌, ◌≡◌, refl, Bool, not, Option, none, some, List,
  [], ◌∷◌, arith, ◌==◌, length, All,
}
use ccmeeting.Client.Message.{Message}
use ccmeeting.Client.Qt.{Qt}
use ccmeeting.Client.Sending.{
  Hub, Point, top, running, waiting, holding, sending, finished, Sender, give_back, deliver, keep,
  advance, turn, signal_send_stop, start_send_worker, Event, turns, enqueues, clears, stops, starts,
  connects, event, events, is_returned,
}
use ccmeeting.Client.Message.{kind}
use ccmeeting.Client.Codec.{encode_wire_frame}

-- The epochs of the threads fall strictly, from one below a bound.
abbrev pub FallFrom : ℕ → List Sender → Type 0
FallFrom bound [] = Unit
FallFrom bound (s ∷ senders) = (s.epoch < bound) × FallFrom s.epoch senders

FallFrom-le : (a b : ℕ) (senders : List Sender) → a ≤ b → FallFrom a senders → FallFrom b senders
FallFrom-le a b [] h f = tt
FallFrom-le a b (s ∷ senders) h f = (omega (arith, f.0), f.1)

pub FallFrom-All :
    (bound : ℕ) (senders : List Sender)
    → FallFrom bound senders
    → All (λ s. s.epoch < bound) senders
FallFrom-All bound [] f = tt
FallFrom-All bound (s ∷ senders) f =
    (f.0, FallFrom-All bound senders (FallFrom-le s.epoch bound senders (omega (arith, f.0)) f.1))

-- The first of the threads, the newest, has the current epoch or an earlier one, and the others earlier ones.
abbrev pub IsNewest : List Sender → ℕ → Type 0
IsNewest [] epoch = Unit
IsNewest (s ∷ senders) epoch = (s.epoch ≤ epoch) × All (λ other. other.epoch < s.epoch) senders

FallFrom-IsNewest :
    (senders : List Sender) (epoch : ℕ) → FallFrom (epoch + 1) senders → IsNewest senders epoch
FallFrom-IsNewest [] epoch f = tt
FallFrom-IsNewest (s ∷ senders) epoch f = (omega (arith, f.0), FallFrom-All s.epoch senders f.1)

give_back-epoch :
    (locked : Bool) (m : Option Message) (hub : Hub)
    → (give_back locked m hub).send_epoch ≡ hub.send_epoch
unfolding give_back
give_back-epoch locked none hub = refl
give_back-epoch locked (some m) hub =
    if_both (λ (r : Hub). r.send_epoch ≡ hub.send_epoch) (is_returned (kind m.body)) _ _ (λ t. refl)
      (λ t. refl)

module _ (q : Qt) (local_user_id : ℕ) where
  deliver-epoch :
      (own : ℕ) (m : Message) (hub : Hub)
      → (deliver q local_user_id own m hub).send_epoch ≡ hub.send_epoch
  unfolding deliver
  deliver-epoch own m hub =
      if_both (λ (r : Hub). r.send_epoch ≡ hub.send_epoch) (not hub.connected) _ _ (λ t. refl)
        (λ t.
          if_both (λ (r : Hub). r.send_epoch ≡ hub.send_epoch)
            (length (encode_wire_frame q m local_user_id) == 0) _ _ (λ t. refl) (λ t. refl))

  abbrev SameEpochs : ℕ → Hub → Sender × Hub → Type 0
  SameEpochs own hub r = (r.0.epoch ≡ own) × (r.1.send_epoch ≡ hub.send_epoch)

  keep-epoch : (s : Sender) (m : Option Message) (hub : Hub) → SameEpochs s.epoch hub (keep s m hub)
  keep-epoch s none hub = (refl, refl)
  keep-epoch s (some m) hub = (refl, refl)

  advance-epoch :
      (locked : Bool) (own : ℕ) (point : Point) (hub : Hub)
      → SameEpochs own hub
          (advance q local_user_id locked (record { epoch = own; point = point }) hub)
  unfolding advance
  advance-epoch locked own top hub =
      if_both (SameEpochs own hub) hub.send_running _ _ (λ t. (refl, refl)) (λ t. (refl, refl))
  advance-epoch locked own running hub =
      if_both (SameEpochs own hub) (hub.send_epoch == own) _ _ (λ t. (refl, refl))
        (λ t. (refl, refl))
  advance-epoch locked own waiting hub = (refl, refl)
  advance-epoch locked own (holding m) hub =
      if_both (SameEpochs own hub) (hub.send_epoch == own) _ _
        (λ t. keep-epoch (record { epoch = own; point = holding m }) m hub)
        (λ t. (refl, give_back-epoch locked m hub))
  advance-epoch locked own (sending m) hub = (refl, deliver-epoch own m hub)
  advance-epoch locked own finished hub = (refl, refl)

  turn-FallFrom :
      (i : ℕ) (locked : Bool) (bound : ℕ) (senders : List Sender) (hub : Hub)
      → FallFrom bound senders
      → let r = turn q local_user_id i locked senders hub in
        FallFrom bound r.0 × (r.1.send_epoch ≡ hub.send_epoch)
  unfolding turn
  turn-FallFrom zero locked bound [] hub f = (tt, refl)
  turn-FallFrom (suc i) locked bound [] hub f = (tt, refl)
  turn-FallFrom zero locked bound (s ∷ senders) hub f =
      let r = advance q local_user_id locked s hub in
      let e = advance-epoch locked s.epoch s.point hub in
      (
        (omega (arith, f.0, e.0), FallFrom-le s.epoch r.0.epoch senders (omega (arith, e.0)) f.1),
        e.1,
      )
  turn-FallFrom (suc i) locked bound (s ∷ senders) hub f =
      let r = turn-FallFrom i locked s.epoch senders hub f.1 in ((f.0, r.0), r.1)

  event-FallFrom :
      (x : Event) (senders : List Sender) (hub : Hub)
      → hub.send_epoch + 2 < 2 ^ 64
      → FallFrom (hub.send_epoch + 1) senders
      → let r = event q local_user_id x senders hub in
        FallFrom (r.1.send_epoch + 1) r.0 × (r.1.send_epoch ≤ hub.send_epoch + 2)
  unfolding event signal_send_stop start_send_worker
  event-FallFrom (turns i locked) senders hub small f =
      let r = turn q local_user_id i locked senders hub in
      let k = turn-FallFrom i locked (hub.send_epoch + 1) senders hub f in
      (
        FallFrom-le (hub.send_epoch + 1) (r.1.send_epoch + 1) r.0 (omega (arith, k.1)) k.0,
        omega (arith, k.1),
      )
  event-FallFrom (enqueues locked m) senders hub small f = (f, omega arith)
  event-FallFrom (clears locked) senders hub small f = (f, omega arith)
  event-FallFrom stops senders hub small f =
      (FallFrom-le (hub.send_epoch + 1) _ senders (omega arith) f, omega arith)
  event-FallFrom starts senders hub small f =
      ((omega arith, FallFrom-le (hub.send_epoch + 1) _ senders (omega arith) f), omega arith)
  event-FallFrom (connects c) senders hub small f = (f, omega arith)

  events-FallFrom :
      (xs : List Event) (senders : List Sender) (hub : Hub)
      → hub.send_epoch + 2 * length xs < 2 ^ 64
      → FallFrom (hub.send_epoch + 1) senders
      → let r = events q local_user_id xs senders hub in FallFrom (r.1.send_epoch + 1) r.0
  unfolding events
  events-FallFrom [] senders hub small f = f
  events-FallFrom (x ∷ xs) senders hub small f =
      let k = event-FallFrom x senders hub (omega arith) f in
      let r = event q local_user_id x senders hub in
      events-FallFrom xs r.0 r.1 (omega (arith, k.1)) k.0

  -- In a hub with no threads, after any sequence of so few events that the epoch does not wrap
  -- around, the newest thread's epoch is at most the current one and every other thread's is below
  -- the newest one's: at most one thread has the current epoch, however many still run.
  pub events-IsNewest :
      (xs : List Event) (hub : Hub)
      → hub.send_epoch + 2 * length xs < 2 ^ 64
      → let r = events q local_user_id xs [] hub in IsNewest r.0 r.1.send_epoch
  events-IsNewest xs hub small =
      let r = events q local_user_id xs [] hub in
      FallFrom-IsNewest r.0 r.1.send_epoch (events-FallFrom xs [] hub small tt)
