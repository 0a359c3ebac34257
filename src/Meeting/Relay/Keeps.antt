-- ===== src/Meeting/Relay/Keeps.antt =====
-- What a packet to a room leaves as it is.
use ccmeeting.Common.{
  ℕ, ◌≡◌, refl, sym, ap, ◌∙◌, inl, inr, Bool, false, Option, none, some, arith, ◌==◌, ==_iff,
  Bool-cases, true-ne-false, length, Bytes,
}
use ccmeeting.Common.Table.{lookup, assign, lookup-assign, length-assign}
use ccmeeting.Common.Run.{done, Ensures, ◌>>=◌}
use ccmeeting.Protocol.Json.{Json}
use ccmeeting.Protocol.Codec.{Packet}
use ccmeeting.Protocol.MessageType
use ccmeeting.Meeting.Room.{Participant, Room, apply_profile, read_avatar}
use ccmeeting.Meeting.Relay.{handle_packet, Conns, relay, broadcast}
use ccmeeting.Meeting.Consistent.Flags.{
  Ensures-if, SameFlags, SameFlags-refl, broadcast-SameFlags, Ensures-bind,
}

-- Whether the connection is a participant, and whether it is the owner.
abbrev pub owner_flag : Option Participant → Option Bool
owner_flag none = none
owner_flag (some p) = some p.is_owner

pub record RoomKeeps (room room' : Room) : Type 0 where
  pub same_id : room'.room_id ≡ room.room_id
  pub same_options : room'.options ≡ room.options
  pub same_closed : room'.closed ≡ room.closed
  pub same_callback : room'.close_callback ≡ room.close_callback
  pub same_size : length room'.participants ≡ length room.participants
  pub same_owners :
      (c : ℕ) → owner_flag (lookup c room'.participants) ≡ owner_flag (lookup c room.participants)

pub RoomKeeps-refl : (room : Room) → RoomKeeps room room
RoomKeeps-refl room = record {
  same_id = refl;
  same_options = refl;
  same_closed = refl;
  same_callback = refl;
  same_size = refl;
  same_owners = λ c. refl;
}

is_owner-apply_profile : (b : Bytes) (p : Participant) → (apply_profile b p).is_owner ≡ p.is_owner
unfolding apply_profile read_avatar
is_owner-apply_profile b p = ground arith

assign-RoomKeeps :
    (c : ℕ) (p q : Participant) (room : Room)
    → lookup c room.participants ≡ some p
    → q.is_owner ≡ p.is_owner
    → RoomKeeps room (record room { participants = assign c q room.participants })
assign-RoomKeeps c p q room l h = record {
  same_id = refl;
  same_options = refl;
  same_closed = refl;
  same_callback = refl;
  same_size = length-assign c q room.participants;
  same_owners = λ d. elim (Bool-cases (c == d)) [
    | inl same ↦
        let new : lookup d (assign c q room.participants) ≡ some q =
          lookup-assign c d q p room.participants l ∙ rw same refl in
        let old : some p ≡ lookup d room.participants =
          sym l ∙ ap (λ k. lookup k room.participants) ((==_iff c d).0 same) in
        ap owner_flag new ∙ ap some h ∙ ap owner_flag old
    | inr other ↦
        let kept : lookup d (assign c q room.participants) ≡ lookup d room.participants =
          lookup-assign c d q p room.participants l ∙ rw other refl in
        ap owner_flag kept
  ];
}

settings-RoomKeeps : (flags : ℕ) (room : Room) → RoomKeeps room (record room { settings = flags })
settings-RoomKeeps flags room = record {
  same_id = refl;
  same_options = refl;
  same_closed = refl;
  same_callback = refl;
  same_size = refl;
  same_owners = λ c. refl;
}

-- Only the owner changes the settings.
abbrev pub IsAllowed : Participant → Room → Conns → Room × Conns → Type 0
IsAllowed sender room conns (room', conns') =
    RoomKeeps room room'
    × SameFlags conns conns'
    × (sender.is_owner ≡ false → room'.settings ≡ room.settings)

module _ (j : Json) (from : ℕ) (sender : Participant) (room : Room) (conns : Conns)
    (member : lookup from room.participants ≡ some sender) where
  then_IsAllowed :
      (packet : Packet) (exclude : ℕ) (room' : Room)
      → RoomKeeps room room'
      → (sender.is_owner ≡ false → room'.settings ≡ room.settings)
      → Ensures
          (IsAllowed sender room conns)
          (broadcast j packet exclude room' conns >>= (λ conns'. done (room', conns')))
  then_IsAllowed packet exclude room' k a =
      Ensures-bind (SameFlags conns) (IsAllowed sender room conns) _ _
        (broadcast-SameFlags j packet exclude room' conns) (λ conns' s. (k, s, a))

  unchanged : IsAllowed sender room conns (room, conns)
  unchanged = (RoomKeeps-refl room, SameFlags-refl conns, λ _. refl)

  relay-IsAllowed :
      (type : MessageType.MessageType) (user_id : ℕ) (payload : Bytes)
      → Ensures (IsAllowed sender room conns) (
          relay j from
            (record { type = type; user_id = user_id; payload = payload })
            sender
            room
            conns)
  unfolding relay
  relay-IsAllowed MessageType.text_send user_id payload =
      then_IsAllowed _ from room (RoomKeeps-refl room) (λ _. refl)
  relay-IsAllowed MessageType.close_camera user_id payload =
      then_IsAllowed _ from room (RoomKeeps-refl room) (λ _. refl)
  relay-IsAllowed MessageType.user_profile user_id payload =
      then_IsAllowed _ from _
        (assign-RoomKeeps from sender (apply_profile payload sender) room member
          (is_owner-apply_profile payload sender))
        (λ _. refl)
  relay-IsAllowed MessageType.room_settings user_id payload =
      Ensures-if (IsAllowed sender room conns) sender.is_owner _ _
        (λ owner.
          then_IsAllowed _ 0 _ (settings-RoomKeeps _ room)
            (λ other. absurd (true-ne-false (sym owner ∙ other))))
        (λ other. unchanged)
  relay-IsAllowed _ user_id payload = unchanged

-- Unless encoding throws, a packet from a participant leaves the room's id, options, closed flag,
-- callback, number of participants and ownership as they are, and every connection's flags and
-- input; and if the sender is not the owner, it leaves the room's settings as they are.
pub handle_packet-IsAllowed :
    (j : Json) (from : ℕ) (packet : Packet) (sender : Participant) (room : Room) (conns : Conns)
    → lookup from room.participants ≡ some sender
    → Ensures (IsAllowed sender room conns) (handle_packet j from packet room conns)
unfolding handle_packet
handle_packet-IsAllowed j from packet sender room conns member =
    Ensures-if (IsAllowed sender room conns) room.closed _ _
      (λ shut. unchanged j from sender room conns member)
      (λ o.
        rw (member, handle_packet)
          (relay-IsAllowed j from sender room conns member packet.type packet.user_id
            packet.payload))
