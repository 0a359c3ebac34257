-- ===== src/Meeting/Room.antt =====
-- The state of a room, message_server/src/meeting/room.cpp, and its functions that touch nothing
-- else: admission, the profile payload, and the packets that the room makes.
pub mod Profile
use ccmeeting.Common.{
  none, [], false, true, not, take, ◌^◌, min, ◌%◌, ◌||◌, ◌+◌, ◌==◌, some, drop, length, Bool, leb,
  ℕ, Option, if◌then◌else◌, ◌++◌, Bytes,
}
use ccmeeting.Common.Table.{Table, emplace}
use ccmeeting.Wire.{read_uint16_be, read_be64, write_uint16_be, write_be64, write_uint32_be}
use ccmeeting.Protocol.MessageType.{user_profile, room_settings_notify, room_settings_default}
use ccmeeting.Protocol.Codec.{Packet}

-- `config::ServerConfig` without the port, which only `main` uses.
pub record ServerConfig : Type 0 where
  pub max_rooms : ℕ
  pub max_participants_per_room : ℕ

-- The values that `main` sets.
abbrev pub main_config : ServerConfig
main_config = record { max_rooms = 64; max_participants_per_room = 1024 }

-- `connection` is the identity of the connection object.
pub record Participant : Type 0 where
  pub connection : ℕ
  pub user_id : ℕ
  pub is_owner : Bool
  pub display_name : Bytes
  pub avatar_url : Bytes

pub record RoomOptions : Type 0 where
  pub max_participants : ℕ
  pub duration_minutes : ℕ

-- `timer`: the expiry timer waits. `close_callback`: the callback is set; it is `cleanup_room`.
pub record Room : Type 0 where
  pub room_id : ℕ
  pub options : RoomOptions
  pub timer : Bool
  pub closed : Bool
  pub settings : ℕ
  pub participants : Table Participant
  pub close_callback : Bool

-- `Room::add_participant`: the new room, or `none` for `false`, which leaves the room as it was.
-- `open` is `conn->is_open()`.
unfoldable pub add_participant : Room → (conn : ℕ) → (conn_open : Bool) → Bool → ℕ → Option Room
add_participant room conn conn_open is_owner user_id =
    if room.closed || not conn_open
    then none
    else if leb room.options.max_participants (length room.participants)
    then none
    else if user_id == 0
    then none
    else some (record room {
      participants =
          emplace conn
            (record {
              connection = conn;
              user_id = user_id;
              is_owner = is_owner;
              display_name = [];
              avatar_url = [];
            })
            room.participants;
    })

abbrev pub or_same : Room → Option Room → Room
or_same room none = room
or_same room (some r) = r

-- `Room::Room`: the options are clipped to the configuration, and the owner is added; a failure of
-- that is ignored.
unfoldable pub new_room :
    (room_id owner : ℕ) → (conn_open : Bool) → ServerConfig → RoomOptions → ℕ → Room
new_room room_id owner conn_open config options owner_user_id =
    let limit =
      if options.max_participants == 0
      then config.max_participants_per_room
      else options.max_participants in
    let room : Room = record {
      room_id = room_id;
      options = record options { max_participants = min limit config.max_participants_per_room };
      timer = false;
      closed = false;
      settings = room_settings_default;
      participants = [];
      close_callback = false;
    } in
    or_same room (add_participant room owner conn_open true owner_user_id)

-- `Room::start_expire_timer`
unfoldable pub start_expire_timer : Room → Room
start_expire_timer room =
    if (room.options.duration_minutes == 0) || room.closed
    then room
    else record room { timer = true }

-- The avatar's part of a profile payload, from `offset` on.
unfoldable pub read_avatar : ℕ → Bytes → Participant → Participant
read_avatar offset payload p =
    let avatar_len = read_uint16_be (drop offset payload) in
    if leb (offset + 2 + avatar_len) (length payload)
    then record p { avatar_url = take avatar_len (drop (offset + 2) payload) }
    else p

-- The case `UserProfile` of `handle_packet`: what it writes into the sender's entry.
unfoldable pub apply_profile : Bytes → Participant → Participant
apply_profile payload p =
    if leb 12 (length payload)
    then (let name_len = read_uint16_be (drop 8 payload) in
        if leb (10 + name_len + 2) (length payload)
        then read_avatar (10 + name_len) payload (record p {
          user_id = read_be64 payload;
          display_name = take name_len (drop 10 payload);
        })
        else p)
    else p

-- `make_user_profile_packet`
unfoldable pub make_user_profile_packet : Participant → Packet
make_user_profile_packet p = record {
  type = user_profile;
  user_id = p.user_id;
  payload =
      write_be64 p.user_id
      ++ (write_uint16_be (length p.display_name % 2 ^ 16)
          ++ (p.display_name ++ (write_uint16_be (length p.avatar_url % 2 ^ 16) ++ p.avatar_url)));
}

-- `make_room_settings_packet`
unfoldable pub make_room_settings_packet : ℕ → Packet
make_room_settings_packet flags = record {
  type = room_settings_notify;
  user_id = 0;
  payload = write_uint32_be flags;
}
