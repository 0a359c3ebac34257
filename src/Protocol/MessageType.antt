-- ===== src/Protocol/MessageType.antt =====
-- message_server/include/protocol/message_type.h and the names of
-- message_server/src/protocol/codec.cpp.
pub mod Names
use ccmeeting.Common.{
  some, bytes_eq, false, if◌then◌else◌, [], ◌+◌, ◌∷◌, none, true, ◌^◌, List, Option, ℕ, Bool, codes,
  Bytes,
}

pub data MessageType : Type 0 where
  img_send img_recv audio_send audio_recv text_send text_recv : MessageType
  create_meeting exit_meeting join_meeting close_camera room_settings : MessageType
  create_meeting_response partner_exit partner_join join_meeting_response : MessageType
  partner_join2 user_profile room_settings_notify : MessageType

-- The enumerators' values.
unfoldable pub to_uint16 : MessageType → ℕ
to_uint16 img_send = 0
to_uint16 img_recv = 1
to_uint16 audio_send = 2
to_uint16 audio_recv = 3
to_uint16 text_send = 4
to_uint16 text_recv = 5
to_uint16 create_meeting = 6
to_uint16 exit_meeting = 7
to_uint16 join_meeting = 8
to_uint16 close_camera = 9
to_uint16 room_settings = 10
to_uint16 create_meeting_response = 20
to_uint16 partner_exit = 21
to_uint16 partner_join = 22
to_uint16 join_meeting_response = 23
to_uint16 partner_join2 = 24
to_uint16 user_profile = 25
to_uint16 room_settings_notify = 26

-- `kRoomSettingsDefault`: the two flags, which are bits 0 and 1.
abbrev pub room_settings_default : ℕ
room_settings_default = 2 ^ 0 + 2 ^ 1

-- `Codec::is_text_type`
unfoldable pub is_text_type : MessageType → Bool
is_text_type text_send = true
is_text_type text_recv = true
is_text_type _ = false

-- `Codec::type_name`
unfoldable pub type_name : MessageType → Bytes
type_name img_send = codes "img_send"
type_name img_recv = codes "img_recv"
type_name audio_send = codes "audio_send"
type_name audio_recv = codes "audio_recv"
type_name text_send = codes "text_send"
type_name text_recv = codes "text_recv"
type_name create_meeting = codes "create_meeting"
type_name exit_meeting = codes "exit_meeting"
type_name join_meeting = codes "join_meeting"
type_name close_camera = codes "close_camera"
type_name room_settings = codes "room_settings"
type_name create_meeting_response = codes "create_meeting_response"
type_name partner_exit = codes "partner_exit"
type_name partner_join = codes "partner_join"
type_name join_meeting_response = codes "join_meeting_response"
type_name partner_join2 = codes "partner_join2"
type_name user_profile = codes "user_profile"
type_name room_settings_notify = codes "room_settings_notify"

-- `kAll`
abbrev pub all_types : List MessageType
all_types =
    img_send ∷ img_recv ∷ audio_send ∷ audio_recv ∷ text_send ∷ text_recv ∷ create_meeting
    ∷ exit_meeting ∷ join_meeting ∷ close_camera ∷ room_settings ∷ create_meeting_response
    ∷ partner_exit ∷ partner_join ∷ join_meeting_response ∷ partner_join2 ∷ user_profile
    ∷ room_settings_notify ∷ []

find_name : Bytes → List MessageType → Option MessageType
find_name name [] = none
find_name name (type ∷ types) =
    if bytes_eq name (type_name type) then some type else find_name name types

-- `Codec::type_from_name`
unfoldable pub type_from_name : Bytes → Option MessageType
unfolding find_name
type_from_name name = find_name name all_types
