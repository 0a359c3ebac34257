-- ===== src/Meeting/Relay.antt =====
-- What a room sends: `broadcast`, `send_to`, `handle_packet` and `notify_user_joined` of
-- message_server/src/meeting/room.cpp. Iteration over `_participants` follows the table's order.
pub mod Delivery
pub mod Keeps
use ccmeeting.Common.{
  ℕ, Bool, ◌&&◌, ◌||◌, not, none, some, [], ◌∷◌, ◌++◌, leb, ◌==◌, if◌then◌else◌, length, Bytes,
}
use ccmeeting.Common.Table.{Table, lookup, assign}
use ccmeeting.Common.Run.{Run, done, ◌>>=◌, catchless}
use ccmeeting.Wire.{read_uint32_be, write_uint32_be, write_be64}
use ccmeeting.Network.Connection.{Connection, send, is_open}
use ccmeeting.Protocol.MessageType.{MessageType}
use ccmeeting.Protocol.Json.{Json}
use ccmeeting.Protocol.Codec.{Packet, encode}
use ccmeeting.Meeting.Room.{
  Participant, Room, apply_profile, make_user_profile_packet, make_room_settings_packet,
}
use ccmeeting.Meeting.World.{update}

abbrev pub Conns : Type 0
Conns = ℕ → Connection

-- A packet of this type with no payload.
abbrev pub bare : MessageType → ℕ → Packet
bare type user_id = record { type = type; user_id = user_id; payload = [] }

-- The loop of `broadcast`, over encoded bytes.
unfoldable pub send_all : Bytes → ℕ → Table Participant → Conns → Conns
send_all encoded exclude [] conns = conns
send_all encoded exclude ((c, p) ∷ rest) conns = send_all encoded exclude rest (
    if (c == exclude) || not (is_open (conns c))
    then conns
    else update conns c (send encoded (conns c)))

module _ (j : Json) where
  -- The packet is encoded whether anyone is to receive it or not.
  unfoldable pub broadcast : Packet → ℕ → Room → Conns → Run Conns
  broadcast packet exclude room conns = do
    encoded ← catchless (encode j packet)
    done (send_all encoded exclude room.participants conns)

  unfoldable pub send_to : ℕ → Packet → Conns → Run Conns
  send_to target packet conns =
      if is_open (conns target)
      then (do
        encoded ← catchless (encode j packet)
        done (update conns target (send encoded (conns target))))
      else done conns

  -- The flags that a `RoomSettings` payload asks for.
  abbrev requested_flags : Bytes → ℕ → ℕ
  requested_flags payload settings =
      if leb 4 (length payload) then read_uint32_be payload else settings

  -- `handle_packet` behind the lookup of the sender's entry.
  unfoldable pub relay : ℕ → Packet → Participant → Room → Conns → Run (Room × Conns)
  relay from packet sender room conns = elim packet.type [
    | MessageType.text_send ↦ do
      conns' ←
          broadcast (record packet { type = MessageType.text_recv; user_id = sender.user_id }) from
            room conns
      done (room, conns')
    | MessageType.close_camera ↦ do
      conns' ← broadcast (bare MessageType.close_camera sender.user_id) from room conns
      done (room, conns')
    | MessageType.user_profile ↦ do
      let sender' = apply_profile packet.payload sender
      let room' = record room { participants = assign from sender' room.participants }
      conns' ← broadcast (record packet { user_id = sender'.user_id }) from room' conns
      done (room', conns')
    | MessageType.room_settings ↦
        if sender.is_owner
        then (do
          let room' = record room { settings = requested_flags packet.payload room.settings }
          conns' ←
              broadcast
                (record {
                  type = MessageType.room_settings_notify;
                  user_id = sender.user_id;
                  payload = write_uint32_be room'.settings;
                })
                0 room' conns
          done (room', conns'))
        else done (room, conns)
    | _ ↦ done (room, conns)
  ]

  unfoldable pub handle_packet : ℕ → Packet → Room → Conns → Run (Room × Conns)
  handle_packet from packet room conns =
      if room.closed then done (room, conns) else elim (lookup from room.participants) [
        | none ↦ done (room, conns)
        | some sender ↦ relay from packet sender room conns
      ]

  -- The user ids of the others, as the payload of `PartnerJoin2`.
  unfoldable pub partner_ids : ℕ → Table Participant → Bytes
  partner_ids newcomer [] = []
  partner_ids newcomer ((c, p) ∷ rest) =
      let ids = partner_ids newcomer rest in
      if c == newcomer then ids else write_be64 p.user_id ++ ids

  -- `p.user_id == 0 || (p.display_name.empty() && p.avatar_url.empty())`
  abbrev has_no_profile : Participant → Bool
  has_no_profile p =
      (p.user_id == 0) || ((length p.display_name == 0) && (length p.avatar_url == 0))

  unfoldable pub send_profiles : ℕ → Table Participant → Conns → Run Conns
  send_profiles newcomer [] conns = done conns
  send_profiles newcomer ((c, p) ∷ rest) conns = do
    conns' ←
        (if (c == newcomer) || has_no_profile p
          then done conns
          else send_to newcomer (make_user_profile_packet p) conns)
    send_profiles newcomer rest conns'

  -- `notify_user_joined` behind the lookup of the newcomer's entry.
  unfoldable pub notify : ℕ → Participant → Room → Conns → Run Conns
  notify newcomer entry room conns = do
    c1 ← broadcast (bare MessageType.partner_join entry.user_id) newcomer room conns
    c2 ←
        send_to newcomer
          (record {
            type = MessageType.partner_join2;
            user_id = 0;
            payload = partner_ids newcomer room.participants;
          })
          c1
    c3 ← send_to newcomer (make_room_settings_packet room.settings) c2
    send_profiles newcomer room.participants c3

  unfoldable pub notify_user_joined : ℕ → Room → Conns → Run Conns
  notify_user_joined newcomer room conns =
      if room.closed then done conns else elim (lookup newcomer room.participants) [
        | none ↦ done conns
        | some entry ↦ notify newcomer entry room conns
      ]
