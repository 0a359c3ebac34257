-- ===== src/Meeting/Consistent/Lobby.antt =====
-- The packets of a connection that is in no room: it joins a room, and what else it may send.
use ccmeeting.Common.{
  [], Bytes, ltb, refl, ◌<◌, some, ◌⊎◌, subst, ℕ, ◌≡◌, sym, ◌∙◌, inl, inr, false, none, List, arith,
  leb, ◌==◌, Bool-cases, Option-cases, length,
}
use ccmeeting.Wire.{read_uint32_be}
use ccmeeting.Meeting.Relay.{notify_user_joined}
use ccmeeting.Common.Table.{emplace, lookup}
use ccmeeting.Common.Run.{done, ◌>>=◌, Ensures}
use ccmeeting.Protocol.Json.{Json}
use ccmeeting.Protocol.Codec.{Packet}
use ccmeeting.Network.Buffer.{Buffer}
use ccmeeting.Meeting.World.{update_self, World}
use ccmeeting.Meeting.Manager.{add_room, create_room, choose_room_id}
use ccmeeting.Meeting.Service.{
  answer_joined, handle_lobby_packet, handle_join_meeting, enter_joined, send_packet,
}
use ccmeeting.Meeting.Consistent.{Room}
use ccmeeting.Meeting.Consistent.Flags.{
  notify_user_joined-SameFlags, SameFlags, Ensures-bind, Ensures-if, Consistent-SameFlags,
}
use ccmeeting.Meeting.Consistent.Arrive.{IsHandled}
use ccmeeting.Meeting.Manager.{join_room, join_found, get_room}
use ccmeeting.Meeting.World.{set_room}
use ccmeeting.Meeting.Manager
use ccmeeting.Meeting.Room.{Participant, add_participant}
use ccmeeting.Meeting.Consistent.Join.{joined_world-Consistent, with_participant}
use ccmeeting.Meeting.Service.{response}
use ccmeeting.Protocol.MessageType
use ccmeeting.Meeting.Consistent.Create.{
  HasInput, send_packet-HasInput, sent-IsHandled, closed-IsHandled, handle_create_meeting-IsHandled,
}

-- The entry of a participant that joins.
abbrev guest : ℕ → ℕ → Participant
guest c user_id = record {
  connection = c;
  user_id = user_id;
  is_owner = false;
  display_name = [];
  avatar_url = [];
}

module _ (j : Json) (c : ℕ) (input : Buffer) where
  module _ (w : World) (h : HasInput j c input w) (opened : (w.conns c).closed ≡ false)
      (lobby : lookup c w.connection_room ≡ none) where
    -- The outcomes of `join_room`.
    join_room-cases :
        (room_id user_id : ℕ)
        → ((r : Manager.JoinResult) × (join_room room_id c user_id w ≡ (r, w))
            × (r ≡ Manager.joined → ⊥))
          ⊎ ((ref : ℕ) × (room : Room) × (p : Participant) × (join_room room_id c user_id w
                ≡ (Manager.joined, set_room ref (with_participant c p room) w))
              × (lookup room_id w.rooms ≡ some ref)
              × (w.heap ref ≡ some room)
              × (room.closed ≡ false)
              × (p.is_owner ≡ false)
              × (length room.participants < room.options.max_participants))
    unfolding join_room get_room join_found add_participant
    join_room-cases room_id user_id = elim (Option-cases (lookup room_id w.rooms)) [
      | inl e ↦ inl (Manager.not_found, rw (e, join_room, get_room) refl, λ q. cc)
      | inr (ref, e) ↦
          let (room, at, _) = h.0.live room_id ref e in
          elim (Bool-cases room.closed) [
            | inl shut ↦
                inl
                  (Manager.closed, rw (e, at, shut, join_room, get_room, join_found) refl, λ q. cc)
            | inr o ↦
                elim (Bool-cases (leb room.options.max_participants (length room.participants))) [
                  | inl f ↦ inl (
                    Manager.full,
                    rw (e, at, o, f, join_room, get_room, join_found) refl,
                    λ q. cc,
                  )
                  | inr space ↦ elim (Bool-cases (user_id == 0)) [
                    | inl z ↦ inl (
                      Manager.full,
                      rw
                          (
                            e, at, o, space, opened, z, join_room, get_room, join_found,
                            add_participant,
                          )
                          refl,
                      λ q. cc,
                    )
                    | inr z ↦ inr (
                      ref,
                      room,
                      guest c user_id,
                      rw
                          (
                            e, at, o, space, opened, z, join_room, get_room, join_found,
                            add_participant,
                          )
                          refl,
                      e,
                      at,
                      o,
                      refl,
                      ground arith,
                    )
                  ]
                ]
          ]
    ]

    abbrev after_join : ℕ → ℕ → World → World
    after_join ref room_id w' = record w' { connection_room = emplace c ref w'.connection_room }

    enter_joined-eq :
        (room_id ref : ℕ) (room : Room) (w' : World)
        → lookup room_id w'.rooms ≡ some ref
        → w'.heap ref ≡ some room
        → enter_joined j c room_id w' ≡ (
            send_packet j c
              (response MessageType.join_meeting_response room_id)
              (after_join ref room_id w')
            >>= (λ w1.
                notify_user_joined j c room w1.conns
                >>= (λ conns. done (record w1 { conns = conns }))))
    unfolding enter_joined get_room
    enter_joined-eq room_id ref room w' e at = rw (e, at, enter_joined, get_room) refl

    joined-IsHandled :
        (room_id ref : ℕ) (room : Room) (w' : World)
        → lookup room_id w'.rooms ≡ some ref
        → w'.heap ref ≡ some room
        → HasInput j c input (after_join ref room_id w')
        → Ensures (IsHandled c input) (enter_joined j c room_id w')
    joined-IsHandled room_id ref room w' e at h' =
        subst (Ensures (IsHandled c input)) (sym (enter_joined-eq room_id ref room w' e at)) (
          Ensures-bind (HasInput j c input) (IsHandled c input) _ _
            (send_packet-HasInput j c input (response MessageType.join_meeting_response room_id) _
              h')
            (λ w1 h1.
              Ensures-bind (SameFlags w1.conns) (IsHandled c input) _ _
                (notify_user_joined-SameFlags j c room w1.conns)
                (λ conns s. (Consistent-SameFlags none w1 conns s h1.0, inr (s.buffer c ∙ h1.1)))))

    -- Every answer but the first is one packet.
    refused-IsHandled :
        (room_id : ℕ) (r : Manager.JoinResult)
        → (r ≡ Manager.joined → ⊥)
        → Ensures (IsHandled c input) (answer_joined j c room_id (r, w))
    unfolding answer_joined
    refused-IsHandled room_id Manager.joined n = absurd (n refl)
    refused-IsHandled room_id Manager.full n = sent-IsHandled j c input _ w h
    refused-IsHandled room_id Manager.not_found n = sent-IsHandled j c input _ w h
    refused-IsHandled room_id Manager.closed n = sent-IsHandled j c input _ w h

    answer_joined-joined :
        (room_id : ℕ) (w' : World)
        → Ensures (IsHandled c input) (enter_joined j c room_id w')
        → Ensures (IsHandled c input) (answer_joined j c room_id (Manager.joined, w'))
    unfolding answer_joined
    answer_joined-joined room_id w' e = e

    join-IsHandled :
        (room_id user_id : ℕ)
        → Ensures (IsHandled c input) (answer_joined j c room_id (join_room room_id c user_id w))
    join-IsHandled room_id user_id = elim (join_room-cases room_id user_id) [
      | inl (r, e, n) ↦
          subst (λ q. Ensures (IsHandled c input) (answer_joined j c room_id q)) (sym e)
            (refused-IsHandled room_id r n)
      | inr (ref, room, p, e, l, at, o, no_owner, space) ↦
          subst (λ q. Ensures (IsHandled c input) (answer_joined j c room_id q)) (sym e)
            (answer_joined-joined room_id _ (
              joined-IsHandled room_id ref (with_participant c p room) _ l
                (update_self w.heap ref (some (with_participant c p room)))
                (joined_world-Consistent c ref p room w h.0 at o lobby opened no_owner space, h.1)))
    ]

    handle_join_meeting-IsHandled :
        (packet : Packet) → Ensures (IsHandled c input) (handle_join_meeting j c packet w)
    unfolding handle_join_meeting
    handle_join_meeting-IsHandled packet =
        Ensures-if (IsHandled c input) (ltb (length packet.payload) 4) _ _
          (λ _. closed-IsHandled j c input w h.0)
          (λ _.
            Ensures-if (IsHandled c input) (packet.user_id == 0) _ _
              (λ _. closed-IsHandled j c input w h.0)
              (λ _. join-IsHandled (read_uint32_be packet.payload) packet.user_id))

    handle_lobby_packet_type :
        (draws : List ℕ) (type : MessageType.MessageType) (user_id : ℕ) (payload : Bytes)
        → Ensures (IsHandled c input) (
            handle_lobby_packet j draws c
              (record { type = type; user_id = user_id; payload = payload })
              w)
    unfolding handle_lobby_packet
    handle_lobby_packet_type draws MessageType.create_meeting user_id payload =
        handle_create_meeting-IsHandled j c input w h opened lobby draws _
    handle_lobby_packet_type draws MessageType.join_meeting user_id payload =
        handle_join_meeting-IsHandled _
    handle_lobby_packet_type draws _ user_id payload = closed-IsHandled j c input w h.0

    pub handle_lobby_packet-IsHandled :
        (draws : List ℕ) (packet : Packet)
        → Ensures (IsHandled c input) (handle_lobby_packet j draws c packet w)
    handle_lobby_packet-IsHandled draws packet =
        handle_lobby_packet_type draws packet.type packet.user_id packet.payload
