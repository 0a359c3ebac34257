-- ===== src/Client/Types.antt =====
-- The types on the wire: client/include/network/messageNet/netheader.h, and their names and kinds in
-- client/src/network/messageNet/messagecodec.cpp.

pub mod Agreement
use ccmeeting.Common.{
  ℕ, Bool, true, false, Option, none, some, List, [], ◌∷◌, if◌then◌else◌, Bytes, codes,
}
use ccmeeting.Client.Message.{MessageKind}

-- `MSG_TYPE`
pub data MsgType : Type 0 where
  img_send img_recv audio_send audio_recv text_send text_recv : MsgType
  create_meeting exit_meeting join_meeting close_camera room_settings : MsgType
  create_meeting_response partner_exit partner_join join_meeting_response : MsgType
  partner_join2 user_profile room_settings_notify : MsgType
  remote_host_closed_error other_net_error : MsgType

-- The enumerators' values.
unfoldable pub to_uint8 : MsgType → ℕ
to_uint8 img_send = 0
to_uint8 img_recv = 1
to_uint8 audio_send = 2
to_uint8 audio_recv = 3
to_uint8 text_send = 4
to_uint8 text_recv = 5
to_uint8 create_meeting = 6
to_uint8 exit_meeting = 7
to_uint8 join_meeting = 8
to_uint8 close_camera = 9
to_uint8 room_settings = 10
to_uint8 create_meeting_response = 20
to_uint8 partner_exit = 21
to_uint8 partner_join = 22
to_uint8 join_meeting_response = 23
to_uint8 partner_join2 = 24
to_uint8 user_profile = 25
to_uint8 room_settings_notify = 26
to_uint8 remote_host_closed_error = 40
to_uint8 other_net_error = 41

-- `MessageCodec::type_name`
unfoldable pub type_name : MsgType → Bytes
type_name img_send = codes "img_send"
type_name img_recv = codes "img_recv"
type_name audio_send = codes "audio_send"
type_name audio_recv = codes "audio_recv"
type_name text_send = codes "text_send"
type_name text_recv = codes "text_recv"
type_name create_meeting = codes "create_meeting"
type_name exit_meeting = codes "exit_meeting"
type_name join_meeting = codes "join_meeting"
type_name close_camera = codes "close_camera"
type_name room_settings = codes "room_settings"
type_name create_meeting_response = codes "create_meeting_response"
type_name partner_exit = codes "partner_exit"
type_name partner_join = codes "partner_join"
type_name join_meeting_response = codes "join_meeting_response"
type_name partner_join2 = codes "partner_join2"
type_name user_profile = codes "user_profile"
type_name room_settings_notify = codes "room_settings_notify"
type_name remote_host_closed_error = codes "remote_host_closed"
type_name other_net_error = codes "other_net_error"

-- `kAll`
abbrev pub all_types : List MsgType
all_types =
    img_send ∷ img_recv ∷ audio_send ∷ audio_recv ∷ text_send ∷ text_recv ∷ create_meeting
    ∷ exit_meeting ∷ join_meeting ∷ close_camera ∷ room_settings ∷ create_meeting_response
    ∷ partner_exit ∷ partner_join ∷ join_meeting_response ∷ partner_join2 ∷ user_profile
    ∷ room_settings_notify ∷ remote_host_closed_error ∷ other_net_error ∷ []

-- `equals` is the comparison of the name with a Latin-1 literal.
find_name : (Bytes → Bool) → List MsgType → Option MsgType
find_name equals [] = none
find_name equals (type ∷ types) =
    if equals (type_name type) then some type else find_name equals types

-- `MessageCodec::type_from_name`
unfoldable pub type_from_name : (Bytes → Bool) → Option MsgType
unfolding find_name
type_from_name equals = find_name equals all_types

-- `MessageCodec::to_wire_type`
unfoldable pub to_wire_type : MessageKind → MsgType
to_wire_type MessageKind.create_meeting = create_meeting
to_wire_type MessageKind.join_meeting = join_meeting
to_wire_type MessageKind.exit_meeting = exit_meeting
to_wire_type MessageKind.close_camera = close_camera
to_wire_type MessageKind.send_text = text_send
to_wire_type MessageKind.create_meeting_response = create_meeting_response
to_wire_type MessageKind.join_meeting_response = join_meeting_response
to_wire_type MessageKind.recv_text = text_recv
to_wire_type MessageKind.partner_join = partner_join
to_wire_type MessageKind.partner_exit = partner_exit
to_wire_type MessageKind.partner_join2 = partner_join2
to_wire_type MessageKind.send_user_profile = user_profile
to_wire_type MessageKind.user_profile_notify = user_profile
to_wire_type MessageKind.room_settings = room_settings
to_wire_type MessageKind.room_settings_notify = room_settings_notify
to_wire_type MessageKind.close_camera_notify = close_camera
to_wire_type MessageKind.remote_host_closed_error = remote_host_closed_error
to_wire_type MessageKind.other_net_error = other_net_error

-- `MessageCodec::from_wire_type`
unfoldable pub from_wire_type : MsgType → MessageKind
from_wire_type img_send = MessageKind.other_net_error
from_wire_type img_recv = MessageKind.other_net_error
from_wire_type audio_send = MessageKind.other_net_error
from_wire_type audio_recv = MessageKind.other_net_error
from_wire_type text_send = MessageKind.send_text
from_wire_type text_recv = MessageKind.recv_text
from_wire_type create_meeting = MessageKind.create_meeting
from_wire_type exit_meeting = MessageKind.exit_meeting
from_wire_type join_meeting = MessageKind.join_meeting
from_wire_type close_camera = MessageKind.close_camera
from_wire_type create_meeting_response = MessageKind.create_meeting_response
from_wire_type partner_exit = MessageKind.partner_exit
from_wire_type partner_join = MessageKind.partner_join
from_wire_type join_meeting_response = MessageKind.join_meeting_response
from_wire_type partner_join2 = MessageKind.partner_join2
from_wire_type user_profile = MessageKind.user_profile_notify
from_wire_type room_settings = MessageKind.room_settings
from_wire_type room_settings_notify = MessageKind.room_settings_notify
from_wire_type remote_host_closed_error = MessageKind.remote_host_closed_error
from_wire_type other_net_error = MessageKind.other_net_error

-- `partner_kind_from_wire`
unfoldable pub partner_kind_from_wire : MsgType → MessageKind
partner_kind_from_wire partner_exit = MessageKind.partner_exit
partner_kind_from_wire close_camera = MessageKind.close_camera_notify
partner_kind_from_wire _ = MessageKind.partner_join

-- `is_text_type`
pub is_text_type : MsgType → Bool
is_text_type text_send = true
is_text_type text_recv = true
is_text_type _ = false
