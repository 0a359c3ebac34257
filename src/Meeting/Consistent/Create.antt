-- ===== src/Meeting/Consistent/Create.antt =====
-- A connection that is in no room creates a meeting.
use ccmeeting.Common.{
  if◌then◌else◌, Option, Bool, ap, not, refl, ◌<◌, some, ◌⊎◌, subst, ℕ, ◌≡◌, sym, ◌∙◌, ◌≢◌, inl,
  inr, true, false, none, List, arith, leb, ◌==◌, ==_iff, Bool-cases, Option-cases, true-ne-false,
  length,
}
use ccmeeting.Common.Table.{lookup}
use ccmeeting.Common.Run.{Ensures}
use ccmeeting.Protocol.Json.{Json}
use ccmeeting.Protocol.Codec.{Packet, encode}
use ccmeeting.Network.Buffer.{Buffer}
use ccmeeting.Meeting.Room.{RoomOptions, new_room, start_expire_timer}
use ccmeeting.Meeting.World.{World}
use ccmeeting.Meeting.Closing.{close}
use ccmeeting.Meeting.Manager.{add_room, create_room, choose_room_id}
use ccmeeting.Meeting.Manager.RoomId.{choose_room_id_unused}
use ccmeeting.Meeting.Service.{send_packet, answer_created, handle_create_meeting, close_fuel}
use ccmeeting.Meeting.Consistent.{Room, Consistent}
use ccmeeting.Meeting.Consistent.Flags.{
  Ensures-map, Ensures-if, send-SameFlags, Consistent-SameFlags,
}
use ccmeeting.Meeting.Consistent.Close.{close-IsClosed, IsClosed}
use ccmeeting.Meeting.Consistent.Arrive.{IsHandled}
use ccmeeting.Meeting.Consistent.Found.{new_room-IsNew, start_expire_timer-IsNew}
use ccmeeting.Meeting.Consistent.Enter.{founded, enter_created-add_room, founded-Consistent}
use ccmeeting.Meeting.Service.{response}
use ccmeeting.Protocol.MessageType

module _ (j : Json) (c : ℕ) (input : Buffer) where
  abbrev pub HasInput : World → Type 0
  HasInput w = Consistent none w × ((w.conns c).read_buffer ≡ input)

  pub send_packet-HasInput :
      (packet : Packet) (w : World) → HasInput w → Ensures HasInput (send_packet j c packet w)
  unfolding send_packet
  send_packet-HasInput packet w (v, b) = elim (Option-cases (encode j packet)) [
    | inl e ↦ rw (e, send_packet) tt
    | inr (m, e) ↦
        rw (e, send_packet)
          (
            Consistent-SameFlags none w _ (send-SameFlags w.conns c m) v,
            (send-SameFlags w.conns c m).buffer c ∙ b,
          )
  ]

  pub sent-IsHandled :
      (packet : Packet) (w : World)
      → HasInput w
      → Ensures (IsHandled c input) (send_packet j c packet w)
  sent-IsHandled packet w h =
      Ensures-map HasInput (IsHandled c input) _ (λ w' (v, b). (v, inr b))
        (send_packet-HasInput packet w h)

  pub closed-IsHandled :
      (w : World) → Consistent none w → Ensures (IsHandled c input) (close j close_fuel c w)
  closed-IsHandled w v =
      Ensures-map (IsClosed c) (IsHandled c input) _ (λ w' (v', s). (v', inl s))
        (close-IsClosed j c w v)

  module _ (w : World) (h : HasInput w) (opened : (w.conns c).closed ≡ false)
      (lobby : lookup c w.connection_room ≡ none) where
    -- `create_room`, with what `is_open` says as an argument.
    abbrev create_if : List ℕ → RoomOptions → ℕ → Bool → Option ℕ × World
    create_if draws options user_id opened =
        if not opened
        then (none, w)
        else if leb w.config.max_rooms (length w.rooms)
        then (none, w)
        else elim (choose_room_id draws w.next_room_id w.rooms) [
          | none ↦ (none, w)
          | some (id, next) ↦ (
            some id,
            add_room id next (start_expire_timer (new_room id c opened w.config options user_id)) w,
          )
        ]

    create_room-open :
        (draws : List ℕ) (options : RoomOptions) (user_id : ℕ)
        → create_room draws c options user_id w ≡ create_if draws options user_id true
    unfolding create_room
    create_room-open draws options user_id = ap (create_if draws options user_id) (ap not opened)

    create_room-cases :
        (draws : List ℕ) (options : RoomOptions) (user_id : ℕ)
        → (create_room draws c options user_id w ≡ (none, w))
          ⊎ ((id : ℕ) × (next : ℕ) × (create_room draws c options user_id w ≡ (
            some id,
            add_room id next (start_expire_timer (new_room id c true w.config options user_id)) w,
          ))
              × (lookup id w.rooms ≡ none)
              × (length w.rooms < w.config.max_rooms))
    create_room-cases draws options user_id =
        elim (Bool-cases (leb w.config.max_rooms (length w.rooms))) [
          | inl full ↦ inl (create_room-open draws options user_id ∙ rw full refl)
          | inr space ↦ elim (Option-cases (choose_room_id draws w.next_room_id w.rooms)) [
            | inl e ↦ inl (create_room-open draws options user_id ∙ rw (space, e) refl)
            | inr ((id, next), e) ↦ inr (
              id,
              next,
              create_room-open draws options user_id ∙ rw (space, e) refl,
              choose_room_id_unused draws w.next_room_id w.rooms (id, next) e,
              ground arith,
            )
          ]
        ]

    answer_created-some :
        (id next : ℕ) (room : Room)
        → lookup id w.rooms ≡ none
        → Consistent none (founded c id next room w)
        → Ensures (IsHandled c input) (answer_created j c (some id, add_room id next room w))
    unfolding answer_created
    answer_created-some id next room free v =
        subst
          (λ u.
            Ensures (IsHandled c input)
              (send_packet j c (response MessageType.create_meeting_response id) u))
          (sym (enter_created-add_room j c id next room w free))
          (sent-IsHandled _ (founded c id next room w) (v, h.1))

    answer_created-none : Ensures (IsHandled c input) (answer_created j c (none, w))
    unfolding answer_created
    answer_created-none = sent-IsHandled _ w h

    created-IsHandled :
        (draws : List ℕ) (options : RoomOptions) (user_id : ℕ)
        → user_id ≢ 0
        → Ensures (IsHandled c input) (answer_created j c (create_room draws c options user_id w))
    created-IsHandled draws options user_id known = elim (create_room-cases draws options user_id) [
      | inl e ↦
          subst (λ r. Ensures (IsHandled c input) (answer_created j c r)) (sym e)
            answer_created-none
      | inr (id, next, e, free, few) ↦
          subst (λ r. Ensures (IsHandled c input) (answer_created j c r)) (sym e)
            (answer_created-some id next _ free (
              founded-Consistent c id next _ w h.0
                (start_expire_timer-IsNew w.config id c _
                  (new_room-IsNew w.config id c options user_id h.0.roomy known))
                free lobby opened few))
    ]

    pub handle_create_meeting-IsHandled :
        (draws : List ℕ) (packet : Packet)
        → Ensures (IsHandled c input) (handle_create_meeting j draws c packet w)
    unfolding handle_create_meeting
    handle_create_meeting-IsHandled draws packet =
        Ensures-if (IsHandled c input) (packet.user_id == 0) _ _ (λ _. closed-IsHandled w h.0)
          (λ n.
            created-IsHandled draws _ packet.user_id
              (λ e. true-ne-false (sym ((==_iff _ 0).1 e) ∙ n)))
