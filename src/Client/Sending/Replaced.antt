-- ===== src/Client/Sending/Replaced.antt =====
-- A thread whose epoch is over sends no more.
use ccmeeting.Common.{
  if_both, ℕ, zero, suc, ◌+◌, ◌*◌, ◌^◌, ◌≤◌, ◌<◌, ◌≡◌, refl, ◌∙◌, Bool, not, Option, none, some,
  List, [], ◌∷◌, arith, ◌==◌, if◌then◌else◌, ==_ne, length, All,
}
use ccmeeting.Client.Message.{Message, kind}
use ccmeeting.Client.Qt.{Qt}
use ccmeeting.Client.Codec.{encode_wire_frame}
use ccmeeting.Client.Sending.{
  keep, Handed, Hub, Point, top, running, waiting, holding, sending, finished, Sender, is_returned,
  give_back, deliver, advance, turn, signal_send_stop, start_send_worker, Event, turns, enqueues,
  clears, stops, starts, connects, event, events,
}

-- How many frames the threads of an epoch have handed to the connection.
abbrev pub count_by : ℕ → List Handed → ℕ
count_by e [] = 0
count_by e (h ∷ hs) = let rest = count_by e hs in if h.by == e then suc rest else rest

-- The thread is not one of the epoch that has already passed the second check of `send_loop`.
abbrev pub IsPast : ℕ → Sender → Type 0
IsPast e s = elim s.point [ sending m ↦ ¬ (s.epoch ≡ e) | _ ↦ Unit {0} ]

record Kept (e : ℕ) (hub : Hub) (s : Sender) (after : Hub) : Type 0 where
  past : IsPast e s
  count_kept : count_by e after.handed ≡ count_by e hub.handed
  epoch_kept : after.send_epoch ≡ hub.send_epoch

abbrev same : {e : ℕ} {hub : Hub} {s : Sender} → IsPast e s → Kept e hub s hub
same h = record { past = h; count_kept = refl; epoch_kept = refl }

give_back-Kept :
    (e : ℕ) (locked : Bool) (m : Option Message) (hub : Hub) (s : Sender)
    → IsPast e s
    → Kept e hub s (give_back locked m hub)
unfolding give_back
give_back-Kept e locked none hub s h = same h
give_back-Kept e locked (some m) hub s h =
    if_both (Kept e hub s) (is_returned (kind m.body)) _ _
      (λ t. record { past = h; count_kept = refl; epoch_kept = refl }) (λ t. same h)

module _ (q : Qt) (local_user_id : ℕ) where
  deliver-Kept :
      (e own : ℕ) (m : Message) (hub : Hub)
      → ¬ (own ≡ e)
      → Kept e hub (record { epoch = own; point = top }) (deliver q local_user_id own m hub)
  unfolding deliver
  deliver-Kept e own m hub ne =
      if_both (Kept e hub (record { epoch = own; point = top })) (not hub.connected) _ _
        (λ t. dropped)
        (λ t.
          if_both (Kept e hub (record { epoch = own; point = top }))
            (length (encode_wire_frame q m local_user_id) == 0) _ _ (λ t. dropped)
            (λ t. record { past = tt; count_kept = rw (==_ne own e ne) refl; epoch_kept = refl }))
    where
      dropped :
          Kept e hub
            (record { epoch = own; point = top })
            (record hub { discarded = m ∷ hub.discarded })
      dropped = record { past = tt; count_kept = refl; epoch_kept = refl }

  keep-Kept :
      (e : ℕ) (m : Option Message) (s : Sender) (hub : Hub)
      → ¬ (s.epoch ≡ e)
      → Kept e hub (keep s m hub).0 (keep s m hub).1
  keep-Kept e none s hub ne = same tt
  keep-Kept e (some m) s hub ne = same ne

  advance_at-Kept :
      (e : ℕ) (locked : Bool) (own : ℕ) (point : Point) (hub : Hub)
      → e < hub.send_epoch
      → IsPast e (record { epoch = own; point = point })
      → let r = advance q local_user_id locked (record { epoch = own; point = point }) hub in
        Kept e hub r.0 r.1
  unfolding advance
  advance_at-Kept e locked own top hub old h =
      if_both (λ (r : Sender × Hub). Kept e hub r.0 r.1) hub.send_running _ _ (λ t. same tt)
        (λ t. same tt)
  advance_at-Kept e locked own running hub old h =
      if_both (λ (r : Sender × Hub). Kept e hub r.0 r.1) (hub.send_epoch == own) _ _ (λ t. same tt)
        (λ t. same tt)
  advance_at-Kept e locked own waiting hub old h = record {
    past = tt;
    count_kept = refl;
    epoch_kept = refl;
  }
  advance_at-Kept e locked own (holding m) hub old h =
      if_both (λ (r : Sender × Hub). Kept e hub r.0 r.1) (hub.send_epoch == own) _ _
        (λ t.
          keep-Kept e m (record { epoch = own; point = holding m }) hub (ground (arith, t, old)))
        (λ t. give_back-Kept e locked m hub (record { epoch = own; point = finished }) tt)
  advance_at-Kept e locked own (sending m) hub old h = deliver-Kept e own m hub h
  advance_at-Kept e locked own finished hub old h = same tt

  record KeptAll (e : ℕ) (hub : Hub) (senders : List Sender) (after : Hub) : Type 0 where
    all_past : All (IsPast e) senders
    all_count : count_by e after.handed ≡ count_by e hub.handed
    all_epoch : after.send_epoch ≡ hub.send_epoch

  turn-Kept :
      (e i : ℕ) (locked : Bool) (senders : List Sender) (hub : Hub)
      → e < hub.send_epoch
      → All (IsPast e) senders
      → let r = turn q local_user_id i locked senders hub in KeptAll e hub r.0 r.1
  unfolding turn
  turn-Kept e zero locked [] hub old h = record {
    all_past = tt;
    all_count = refl;
    all_epoch = refl;
  }
  turn-Kept e (suc i) locked [] hub old h = record {
    all_past = tt;
    all_count = refl;
    all_epoch = refl;
  }
  turn-Kept e zero locked (s ∷ senders) hub old h =
      let k = advance_at-Kept e locked s.epoch s.point hub old h.0 in
      record { all_past = (k.past, h.1); all_count = k.count_kept; all_epoch = k.epoch_kept }
  turn-Kept e (suc i) locked (s ∷ senders) hub old h =
      let k = turn-Kept e i locked senders hub old h.1 in
      record { all_past = (h.0, k.all_past); all_count = k.all_count; all_epoch = k.all_epoch }

  event-Kept :
      (e : ℕ) (x : Event) (senders : List Sender) (hub : Hub)
      → e < hub.send_epoch
      → hub.send_epoch + 2 < 2 ^ 64
      → All (IsPast e) senders
      → let r = event q local_user_id x senders hub in
        All (IsPast e) r.0
        × (count_by e r.1.handed ≡ count_by e hub.handed)
        × (e < r.1.send_epoch)
        × (r.1.send_epoch ≤ hub.send_epoch + 2)
  unfolding event signal_send_stop start_send_worker
  event-Kept e (turns i locked) senders hub old small h =
      let k = turn-Kept e i locked senders hub old h in
      (k.all_past, k.all_count, ground (arith, k.all_epoch, old), ground (arith, k.all_epoch))
  event-Kept e (enqueues locked m) senders hub old small h = (h, refl, old, omega arith)
  event-Kept e (clears locked) senders hub old small h = (h, refl, old, omega arith)
  event-Kept e stops senders hub old small h = (h, refl, omega arith, omega arith)
  event-Kept e starts senders hub old small h = ((tt, h), refl, omega arith, omega arith)
  event-Kept e (connects c) senders hub old small h = (h, refl, old, omega arith)

  -- Whatever happens next, in any interleaving of so few events that the epoch does not wrap
  -- around, threads of an epoch below the current one, none of which is behind the second check of
  -- send_loop, hand no further frame to the connection.
  pub count_by-events :
      (e : ℕ) (xs : List Event) (senders : List Sender) (hub : Hub)
      → e < hub.send_epoch
      → hub.send_epoch + 2 * length xs < 2 ^ 64
      → All (IsPast e) senders
      → count_by e (events q local_user_id xs senders hub).1.handed ≡ count_by e hub.handed
  unfolding events
  count_by-events e [] senders hub old small h = refl
  count_by-events e (x ∷ xs) senders hub old small h =
      let k = event-Kept e x senders hub old (omega arith) h in
      let r = event q local_user_id x senders hub in
      count_by-events e xs r.0 r.1 k.2 (omega (arith, k.3)) k.0 ∙ k.1
