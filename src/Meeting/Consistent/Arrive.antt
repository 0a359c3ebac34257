-- ===== src/Meeting/Consistent/Arrive.antt =====
-- Connections come, writes complete, and timers run out.
use ccmeeting.Common.{
  ◌≤◌, ℕ, ◌≡◌, refl, sym, ap, ◌∙◌, ◌≢◌, ◌⊎◌, inl, inr, true, false, none, some, arith, ◌==◌,
  Bool-cases, Option-cases, none-ne-some, true-ne-false, subst,
}
use ccmeeting.Common.Table.{lookup}
use ccmeeting.Common.Run.{Ensures}
use ccmeeting.Protocol.Json.{Json}
use ccmeeting.Protocol.Codec.{Packet}
use ccmeeting.Network.Connection.{Connection, write_completed, new_connection}
use ccmeeting.Network.Buffer.{Buffer}
use ccmeeting.Meeting.Room.{Room, ServerConfig}
use ccmeeting.Meeting.World.{World, init, set_conn, update_ne}
use ccmeeting.Meeting.Closing.{close, close_room}
use ccmeeting.Meeting.Service.{accept, on_expired, close_fuel, room_packet}
use ccmeeting.Meeting.Relay.Keeps.{handle_packet-IsAllowed, IsAllowed}
use ccmeeting.Meeting.Consistent.{Consistent}
use ccmeeting.Meeting.Consistent.Flags.{Ensures-map, Ensures-bind, Ensures-if, Consistent-SameFlags}
use ccmeeting.Meeting.Consistent.Shut.{weaken-Consistent}
use ccmeeting.Network.Connection.Queue.{write_completed_flags}
use ccmeeting.Meeting.Consistent.Flags.{update-SameFlags, Ensures-map, Ensures-bind, Ensures-if}
use ccmeeting.Meeting.Consistent.Close.{close_room_closed, close_room-IsClosed, IsClosed}
use ccmeeting.Meeting.Consistent.Rewrite.{set_room-Consistent}

pub init-Consistent :
    (config : ServerConfig) → 1 ≤ config.max_participants_per_room → Consistent none (init config)
unfolding init lookup
init-Consistent config h = record {
  is_room = λ r ro e. cc;
  owned = λ r ro e o n. cc;
  listed = λ r ro e o. cc;
  live = λ id r e. cc;
  called = λ r ro e. cc;
  mapped = λ c r e. cc;
  entered = λ r ro c p e l. cc;
  handled = λ c o. cc;
  fresh_refs = λ r _. refl;
  fresh_conns = λ c _. refl;
  keys = tt;
  few_rooms = omega arith;
  roomy = h;
}

-- The next connection is a new one, so nothing refers to it yet.
pub accept-Consistent : (w : World) → Consistent none w → Consistent none (accept w)
unfolding accept new_connection
accept-Consistent w v = record {
  is_room = v.is_room;
  owned = v.owned;
  listed = v.listed;
  live = v.live;
  called = v.called;
  mapped = v.mapped;
  entered = λ r ro c p e l.
      let (m, o) = v.entered r ro c p e l in
      let n : w.next_connection_id ≢ c =
        λ h. true-ne-false (sym (v.fresh_conns c (omega (arith, h))) ∙ o) in
      (m, ap (λ (t : Connection). t.closed) (update_ne w.conns w.next_connection_id _ c n) ∙ o);
  handled = λ c o. elim (Bool-cases (w.next_connection_id == c)) [
    | inl same ↦ rw same refl
    | inr other ↦ rw other (v.handled c (sym (rw other refl) ∙ o))
  ];
  fresh_refs = v.fresh_refs;
  fresh_conns = λ c h.
      ap (λ (t : Connection). t.closed)
        (update_ne w.conns w.next_connection_id _ c (λ e. absurd (omega (arith, e, h))))
      ∙ v.fresh_conns c (omega (arith, h));
  keys = v.keys;
  few_rooms = v.few_rooms;
  roomy = v.roomy;
}

-- An expired timer closes its room, if the room is still open.
pub on_expired-Consistent :
    (j : Json) (ref : ℕ) (w : World)
    → Consistent none w
    → Ensures (Consistent none) (on_expired j ref w)
unfolding on_expired
on_expired-Consistent j ref w v = elim (Option-cases (w.heap ref)) [
  | inl e ↦ rw (e, on_expired) v
  | inr (room, e) ↦
      rw (e, on_expired)
        (Ensures-if (Consistent none) room.timer _ _ (λ t. expires room e (Bool-cases room.closed))
          (λ n. v))
]
  where
    expires :
        (room : Room)
        → w.heap ref ≡ some room
        → (room.closed ≡ true) ⊎ (room.closed ≡ false)
        → Ensures (Consistent none) (close_room j (close j close_fuel) ref w)
    expires room e (inl shut) =
        subst (Ensures (Consistent none))
          (sym (close_room_closed j (close j close_fuel) ref w room e shut)) v
    expires room e (inr o) =
        Ensures-map (IsClosed w.next_connection_id) (Consistent none) _ (λ w' h. h.0)
          (close_room-IsClosed j 1 w.next_connection_id ref w room
            (weaken-Consistent (some ref) w v) e o
            (v.fresh_conns w.next_connection_id (omega arith)))

pub written-Consistent :
    (c : ℕ) (w : World)
    → Consistent none w
    → Consistent none (set_conn c (write_completed (w.conns c)) w)
written-Consistent c w v =
    let (p, q, r) = write_completed_flags (w.conns c) in
    Consistent-SameFlags none w _ (update-SameFlags w.conns c _ p q r) v

-- The state is consistent, and the connection is closed or has the same input left.
abbrev pub IsHandled : ℕ → Buffer → World → Type 0
IsHandled c input w =
    Consistent none w × (((w.conns c).closed ≡ true) ⊎ ((w.conns c).read_buffer ≡ input))

pub room_packet-IsHandled :
    (j : Json) (ref c : ℕ) (packet : Packet) (w : World)
    → Consistent none w
    → lookup c w.connection_room ≡ some ref
    → Ensures (IsHandled c (w.conns c).read_buffer) (room_packet j ref c packet w)
unfolding room_packet
room_packet-IsHandled j ref c packet w v q =
    let (room, at, f) = v.mapped c ref q in
    let (opened, (sender, member)) = f (λ h. none-ne-some h) in
    rw (at, room_packet)
      (Ensures-bind (IsAllowed sender room w.conns) (IsHandled c (w.conns c).read_buffer) _ _
        (handle_packet-IsAllowed j c packet sender room w.conns member)
        (λ (room', conns) (k, s, a). (
          set_room-Consistent none (record w { conns = conns }) ref room room'
              (Consistent-SameFlags none w conns s v) at k,
          inr (s.buffer c),
        )))
