-- ===== src/Meeting/Consistent/Close.antt =====
-- Closing from its start to its end: `close` and `close_room` come back, and what they leave behind
-- is consistent.
use ccmeeting.Common.{
  ℕ, suc, ◌≡◌, refl, sym, ap, ◌∙◌, inl, inr, true, false, none, some, Bool-cases, Option-cases,
  none-ne-some, true-ne-false, subst,
}
use ccmeeting.Common.Table.{lookup, erase, erase_absent, All-map, keys_found}
use ccmeeting.Common.Run.{Run, done, Ensures}
use ccmeeting.Protocol.Json.{Json}
use ccmeeting.Network.Connection.{Connection}
use ccmeeting.Meeting.Room.{Room, Participant}
use ccmeeting.Meeting.World.{World, set_room, update_self}
use ccmeeting.Meeting.Closing.{
  remove_room, close, close_room, call_back, remove_participant, on_connection_close, cleanup_room,
}
use ccmeeting.Meeting.Consistent.{Consistent}
use ccmeeting.Meeting.Consistent.Flags.{Ensures-bind}
use ccmeeting.Meeting.Consistent.Leave.{mark_closed}
use ccmeeting.Meeting.Consistent.Drop.{unmapped-Consistent}
use ccmeeting.Meeting.Consistent.Shut.{shut, shut-Consistent}
use ccmeeting.Meeting.Consistent.Cleanup.{cleanup_room-Consistent}
use ccmeeting.Meeting.Consistent.Flags.{SameFlags, broadcast-SameFlags, Consistent-SameFlags}
use ccmeeting.Meeting.Consistent.Leave.{left, without, left-Consistent}
use ccmeeting.Meeting.Consistent.Drop.{clear_handler-Consistent}
use ccmeeting.Meeting.Closing.{after_erase}
use ccmeeting.Meeting.Service.{close_fuel}
use ccmeeting.Meeting.World.{update_keeps}
use ccmeeting.Meeting.Consistent.Members.{
  IsShutting, handler-mark_closed, close-open, notify_close-eq, close_members-IsShutting,
}

-- Closing came back, the connection is closed and all is consistent.
abbrev pub IsClosed : ℕ → World → Type 0
IsClosed gone w = Consistent none w × ((w.conns gone).closed ≡ true)

call_back-IsClosed :
    (gone ref : ℕ) (w : World) (room : Room) (j : Json)
    → IsShutting gone ref room w
    → room.close_callback ≡ true
    → IsClosed gone (call_back j room w)
unfolding call_back cleanup_room remove_room
call_back-IsClosed gone ref w room j s h =
    rw (h, call_back)
      (cleanup_room-Consistent w ref (shut room) s.consistent s.at refl s.entry, s.shut_down)

-- Closing an open room that is in the heap of a state consistent but for that room comes back with
-- any positive fuel, unless an uncaught exception ends the process, and then the state is
-- consistent, without exception for that room, and the connection that was closed before still is.
pub close_room-IsClosed :
    (j : Json) (fuel gone ref : ℕ) (w : World) (room : Room)
    → Consistent (some ref) w
    → w.heap ref ≡ some room
    → room.closed ≡ false
    → (w.conns gone).closed ≡ true
    → Ensures (IsClosed gone) (close_room j (close j (suc fuel)) ref w)
unfolding close_room call_back
close_room-IsClosed j fuel gone ref w room v at o g =
    rw (at, o, close_room)
      (Ensures-bind (IsShutting gone ref room) (IsClosed gone) _ _
        (close_members-IsShutting j gone ref room fuel room.participants
          (set_room ref (shut room) w)
          (record {
            consistent = shut-Consistent w ref room v at;
            at = update_self w.heap ref (some (shut room));
            entry = v.listed ref room at o;
            shut_down = g;
          })
          (All-map _ _ (λ e (p, l). inr (v.entered ref room e.0 p at l).0) room.participants
            (keys_found room.participants)))
        (λ w' s. call_back-IsClosed gone ref w' room j s (v.called ref room at)))

module _ (j : Json) (fuel c ref : ℕ) (w : World) (room : Room) (p : Participant)
    (v : Consistent none w) (at : w.heap ref ≡ some room) (o : room.closed ≡ false)
    (member : lookup c room.participants ≡ some p) where
  left-closed : ((left c ref room w).conns c).closed ≡ true
  left-closed = ap (λ (t : Connection). t.closed) (update_self w.conns c _)

  -- The owner takes the room along; the others hear of any other participant.
  after_erase-IsClosed :
      Ensures
        (IsClosed c)
        (after_erase j (close j (suc fuel)) ref (without c room) p (left c ref room w))
  unfolding after_erase
  after_erase-IsClosed = elim (Bool-cases p.is_owner) [
    | inl owner ↦
        rw (owner, after_erase)
          (close_room-IsClosed j fuel c ref (left c ref room w) (without c room)
            (left-Consistent w c ref room p (some ref) v at member (λ _. refl))
            (update_self w.heap ref (some (without c room))) o left-closed)
    | inr other ↦
        rw (other, after_erase)
          (Ensures-bind (SameFlags (left c ref room w).conns) (IsClosed c) _ _
            (broadcast-SameFlags j _ 0 (without c room) (left c ref room w).conns)
            (λ conns s. (
              Consistent-SameFlags none (left c ref room w) conns s (
                  left-Consistent w c ref room p none v at member
                    (λ h. absurd (true-ne-false (sym h ∙ other)))),
              s.closed c ∙ left-closed,
            )))
  ]

  remove_participant-IsClosed : Ensures (IsClosed c) (
      remove_participant j
        (close j (suc fuel))
        ref
        c
        (record (mark_closed c w) { connection_room = erase c w.connection_room }))
  unfolding remove_participant
  remove_participant-IsClosed = rw (at, o, member, remove_participant) after_erase-IsClosed

on_connection_close-IsClosed :
    (j : Json) (fuel c : ℕ) (w : World)
    → Consistent none w
    → (w.conns c).closed ≡ false
    → Ensures (IsClosed c) (on_connection_close j (close j (suc fuel)) c (mark_closed c w))
unfolding on_connection_close
on_connection_close-IsClosed j fuel c w v o = elim (Option-cases (lookup c w.connection_room)) [
  | inl n ↦
      rw (n, on_connection_close)
        (
          subst (λ t. Consistent none (record (mark_closed c w) { connection_room = t }))
              (erase_absent c w.connection_room n)
              (unmapped-Consistent none c w v
                (λ r ro p e l. none-ne-some (sym n ∙ (v.entered r ro c p e l).0))),
          ap (λ (t : Connection). t.closed) (update_self w.conns c _),
        )
  | inr (ref, q) ↦
      let (room, at, f) = v.mapped c ref q in
      let (opened, (p, member)) = f (λ h. none-ne-some h) in
      rw (q, on_connection_close)
        (remove_participant-IsClosed j fuel c ref w room p v at opened member)
]

close_closed :
    (j : Json) (fuel c : ℕ) (w : World)
    → (w.conns c).closed ≡ true
    → close j (suc fuel) c w ≡ done w
unfolding close
close_closed j fuel c w h = rw (h, close) refl

pub close_room_closed :
    (j : Json) (close : ℕ → World → Run World) (ref : ℕ) (w : World) (room : Room)
    → w.heap ref ≡ some room
    → room.closed ≡ true
    → close_room j close ref w ≡ done w
unfolding close_room
close_room_closed j close ref w room at h = rw (at, h, close_room) refl

-- From a consistent state two levels of nested calls are enough for Connection::close: it comes
-- back, unless an exception ends the process, and then the connection is closed and the state is
-- consistent, whether it was in no room, a guest, or the owner whose room closes too.
pub close-IsClosed :
    (j : Json) (c : ℕ) (w : World)
    → Consistent none w
    → Ensures (IsClosed c) (close j close_fuel c w)
close-IsClosed j c w v = elim (Bool-cases (w.conns c).closed) [
  | inl shut ↦ subst (Ensures (IsClosed c)) (sym (close_closed j 1 c w shut)) (v, shut)
  | inr o ↦
      subst (Ensures (IsClosed c))
        (sym (
          close-open j 1 c w o
          ∙ notify_close-eq j (close j 1) c (mark_closed c w)
              (handler-mark_closed c w (v.handled c o))))
        (Ensures-bind (IsClosed c) (IsClosed c) _ _ (on_connection_close-IsClosed j 0 c w v o)
          (λ w' h. (
            clear_handler-Consistent none c w' h.1 h.0,
            update_keeps w'.conns c _ (λ t. t.closed) c refl ∙ h.1,
          )))
]
