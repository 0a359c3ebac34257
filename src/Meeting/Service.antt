-- ===== src/Meeting/Service.antt =====
-- `MeetingService` of message_server/src/service/meeting_service.cpp, and the events of the
-- connections, of the timers and of `Server::do_accept` that drive it.
pub mod Options
use ccmeeting.Common.{
  ℕ, zero, suc, ◌+◌, ◌-◌, ◌*◌, ◌%◌, ◌^◌, true, Option, none, some, List, ltb, leb, ◌==◌,
  if◌then◌else◌, length, drop, Bytes,
}
use ccmeeting.Common.Table.{lookup, emplace}
use ccmeeting.Common.Run.{Run, done, terminated, out_of_fuel, ◌>>=◌, catchless}
use ccmeeting.Wire.{read_uint32_be, write_uint32_be}
use ccmeeting.Network.Buffer.{Buffer, readable_size}
use ccmeeting.Network.Connection.{new_connection, send, receive, write_completed}
use ccmeeting.Protocol.MessageType
use ccmeeting.Protocol.Json.{Json}
use ccmeeting.Protocol.Codec.{Packet, Decode, try_decode, encode}
use ccmeeting.Meeting.Room.{RoomOptions, ServerConfig}
use ccmeeting.Meeting.World.{World, set_conn, set_room, is_conn_open}
use ccmeeting.Meeting.Relay.{handle_packet, notify_user_joined}
use ccmeeting.Meeting.Closing.{close, close_room}
use ccmeeting.Meeting.Manager.{create_room, join_room, get_room, joined, full}
use ccmeeting.Meeting.Manager

-- `std::clamp`
unfoldable pub clamp : ℕ → ℕ → ℕ → ℕ
clamp v lo hi = if ltb v lo then lo else if ltb hi v then hi else v

-- The options that the payload asks for, before they are clipped.
abbrev asked_options : Bytes → ServerConfig → RoomOptions
asked_options payload config =
    if leb 8 (length payload)
    then record {
      max_participants = read_uint32_be payload;
      duration_minutes = read_uint32_be (drop 4 payload);
    }
    else record { max_participants = config.max_participants_per_room; duration_minutes = 60 }

-- `parse_create_meeting_options`
unfoldable pub parse_create_meeting_options : Bytes → ServerConfig → RoomOptions
unfolding clamp
parse_create_meeting_options payload config =
    let options = asked_options payload config in
    record {
      max_participants =
          clamp (options.max_participants % 2 ^ 32) 2 (config.max_participants_per_room % 2 ^ 32);
      duration_minutes = clamp options.duration_minutes 1 (24 * 60);
    }

-- Enough nested calls of `Connection::close`.
abbrev pub close_fuel : ℕ
close_fuel = 2

-- What the process is driven by.
pub data Event : Type 0 where
  -- A client has connected: `Server::do_accept`.
  connected : Event
  -- A WebSocket message has been read from a connection.
  message : List ℕ → ℕ → Bytes → Event
  -- A read, the handshake or a write of a connection has failed.
  failed : ℕ → Event
  -- A write of a connection has completed.
  written : ℕ → Event
  -- A room's expiry timer has run out.
  expired : ℕ → Event

-- `Server::do_accept` and `on_new_connection`: a new connection with both handlers.
unfoldable pub accept : World → World
accept w =
    record (set_conn w.next_connection_id (record new_connection { close_handler = true }) w) {
      next_connection_id = w.next_connection_id + 1;
    }

-- A response, whose payload is one number.
abbrev pub response : MessageType.MessageType → ℕ → Packet
response type value = record { type = type; user_id = 0; payload = write_uint32_be value }

module _ (j : Json) where
  abbrev close_conn : ℕ → World → Run World
  close_conn c w = close j close_fuel c w

  -- `conn->send(Codec::encode(response))`
  unfoldable pub send_packet : ℕ → Packet → World → Run World
  send_packet c packet w = do
    encoded ← catchless (encode j packet)
    done (set_conn c (send encoded (w.conns c)) w)

  -- The room gets its callback, and the owner's connection its room.
  unfoldable pub enter_created : ℕ → ℕ → World → World
  enter_created c room_id w = elim (get_room room_id w) [
    | none ↦ w
    | some (ref, room) ↦
        let w' = set_room ref (record room { close_callback = true }) w in
        record w' { connection_room = emplace c ref w'.connection_room }
  ]

  unfoldable pub answer_created : ℕ → Option ℕ × World → Run World
  answer_created c (none, w) = send_packet c (response MessageType.create_meeting_response 0) w
  answer_created c (some room_id, w) =
      send_packet c (response MessageType.create_meeting_response room_id)
        (enter_created c room_id w)

  -- `handle_create_meeting`; `draws` are the random room numbers.
  unfoldable pub handle_create_meeting : List ℕ → ℕ → Packet → World → Run World
  handle_create_meeting draws c packet w =
      if packet.user_id == 0
      then close_conn c w
      else answer_created c (
          create_room draws c (parse_create_meeting_options packet.payload w.config) packet.user_id
            w)

  -- `_connection_room.emplace`, the response, and the news to the room.
  unfoldable pub enter_joined : ℕ → ℕ → World → Run World
  enter_joined c room_id w = elim (get_room room_id w) [
    | none ↦ done w
    | some (ref, room) ↦ do
      w1 ←
          send_packet c (response MessageType.join_meeting_response room_id)
            (record w { connection_room = emplace c ref w.connection_room })
      conns ← notify_user_joined j c room w1.conns
      done (record w1 { conns = conns })
  ]

  unfoldable pub answer_joined : ℕ → ℕ → Manager.JoinResult × World → Run World
  answer_joined c room_id (Manager.joined, w) = enter_joined c room_id w
  answer_joined c room_id (Manager.full, w) =
      send_packet c (response MessageType.join_meeting_response (2 ^ 32 - 1)) w
  answer_joined c room_id (_, w) = send_packet c (response MessageType.join_meeting_response 0) w

  -- `handle_join_meeting`
  unfoldable pub handle_join_meeting : ℕ → Packet → World → Run World
  handle_join_meeting c packet w =
      if ltb (length packet.payload) 4
      then close_conn c w
      else if packet.user_id == 0
      then close_conn c w
      else (let room_id = read_uint32_be packet.payload in
          answer_joined c room_id (join_room room_id c packet.user_id w))

  -- `handle_lobby_packet`
  unfoldable pub handle_lobby_packet : List ℕ → ℕ → Packet → World → Run World
  handle_lobby_packet draws c packet w = elim packet.type [
    | MessageType.create_meeting ↦ handle_create_meeting draws c packet w
    | MessageType.join_meeting ↦ handle_join_meeting c packet w
    | _ ↦ close_conn c w
  ]

  -- `room_it->second->handle_packet(conn, packet)`
  unfoldable pub room_packet : ℕ → ℕ → Packet → World → Run World
  room_packet ref c packet w = elim (w.heap ref) [
    | none ↦ done w
    | some room ↦ do
      (room', conns) ← handle_packet j c packet room w.conns
      done (set_room ref room' (record w { conns = conns }))
  ]

  -- To the room of the connection, or to the lobby.
  unfoldable pub dispatch : List ℕ → ℕ → Packet → World → Run World
  dispatch draws c packet w = elim (lookup c w.connection_room) [
    | some ref ↦ room_packet ref c packet w
    | none ↦ handle_lobby_packet draws c packet w
  ]

  abbrev pub set_buffer : ℕ → Buffer → World → World
  set_buffer c b w = set_conn c (record (w.conns c) { read_buffer = b }) w

  -- One round of the loop of `on_connection_read`; `again` is the rest of the loop.
  unfoldable pub read_round : (World → Run World) → List ℕ → ℕ → Decode × Buffer → World → Run World
  read_round again draws c (Decode.need_more, b) w = done w
  read_round again draws c (Decode.invalid, b) w = close_conn c (set_buffer c b w)
  read_round again draws c (Decode.throws, b) w = terminated
  read_round again draws c (Decode.ok packet, b) w = do
    w' ← dispatch draws c packet (set_buffer c b w)
    again w'

  -- `on_connection_read`: each packet that is decoded takes five bytes at least from the buffer.
  unfoldable pub on_connection_read : ℕ → List ℕ → ℕ → World → Run World
  on_connection_read zero draws c w = out_of_fuel
  on_connection_read (suc fuel) draws c w =
      let again : World → Run World = on_connection_read fuel draws c in
      if is_conn_open w c
      then read_round again draws c (try_decode j (w.conns c).read_buffer) w
      else done w

  -- The read handler of `Connection::do_read`.
  unfoldable pub on_message : List ℕ → ℕ → Bytes → World → Run World
  on_message draws c bytes w =
      let w' = set_conn c (receive bytes (w.conns c)) w in
      on_connection_read (readable_size (w'.conns c).read_buffer + 1) draws c w'

  -- The timer's handler; a cancelled one does nothing.
  unfoldable pub on_expired : ℕ → World → Run World
  on_expired ref w = elim (w.heap ref) [
    | none ↦ done w
    | some room ↦ if room.timer then close_room j (close_conn) ref w else done w
  ]

  -- A read or a write that was under way when its connection closed may still succeed.
  unfoldable pub step : World → Event → Run World
  step w connected = done (accept w)
  step w (message draws c bytes) = on_message draws c bytes w
  step w (failed c) = close_conn c w
  step w (written c) =
      if (w.conns c).write_in_progress
      then done (set_conn c (write_completed (w.conns c)) w)
      else done w
  step w (expired ref) = on_expired ref w
