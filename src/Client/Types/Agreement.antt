-- ===== src/Client/Types/Agreement.antt =====
-- The client and the server name and number the messages alike.
use ccmeeting.Common.{◌≡◌, refl, sym, ap, ◌∙◌, some, bytes_eq}
use ccmeeting.Protocol.MessageType
use ccmeeting.Protocol.MessageType.Names
use ccmeeting.Client.Types.{MsgType, to_uint8, type_name, type_from_name}

-- The client's enumerator for a type of the server.
abbrev pub counterpart : MessageType.MessageType → MsgType
counterpart MessageType.img_send = MsgType.img_send
counterpart MessageType.img_recv = MsgType.img_recv
counterpart MessageType.audio_send = MsgType.audio_send
counterpart MessageType.audio_recv = MsgType.audio_recv
counterpart MessageType.text_send = MsgType.text_send
counterpart MessageType.text_recv = MsgType.text_recv
counterpart MessageType.create_meeting = MsgType.create_meeting
counterpart MessageType.exit_meeting = MsgType.exit_meeting
counterpart MessageType.join_meeting = MsgType.join_meeting
counterpart MessageType.close_camera = MsgType.close_camera
counterpart MessageType.room_settings = MsgType.room_settings
counterpart MessageType.create_meeting_response = MsgType.create_meeting_response
counterpart MessageType.partner_exit = MsgType.partner_exit
counterpart MessageType.partner_join = MsgType.partner_join
counterpart MessageType.join_meeting_response = MsgType.join_meeting_response
counterpart MessageType.partner_join2 = MsgType.partner_join2
counterpart MessageType.user_profile = MsgType.user_profile
counterpart MessageType.room_settings_notify = MsgType.room_settings_notify

pub type_name-counterpart :
    (t : MessageType.MessageType) → type_name (counterpart t) ≡ MessageType.type_name t
unfolding type_name MessageType.type_name
type_name-counterpart MessageType.img_send = refl
type_name-counterpart _ = refl

pub type_from_name-type_name : (t : MsgType) → type_from_name (bytes_eq (type_name t)) ≡ some t
unfolding type_from_name type_name bytes_eq
type_from_name-type_name MsgType.img_send = refl
type_from_name-type_name _ = refl

to_uint8-counterpart :
    (t : MessageType.MessageType) → to_uint8 (counterpart t) ≡ MessageType.to_uint16 t
unfolding to_uint8 MessageType.to_uint16
to_uint8-counterpart MessageType.img_send = refl
to_uint8-counterpart _ = refl

-- For every message type of the server the client has one of the same number; the client's lookup
-- finds it under the server's name, and the server's lookup finds the server's type under the
-- client's name.
pub type_from_name-type_name_server :
    (t : MessageType.MessageType)
    → (type_from_name (bytes_eq (MessageType.type_name t)) ≡ some (counterpart t))
      × (MessageType.type_from_name (type_name (counterpart t)) ≡ some t)
      × (to_uint8 (counterpart t) ≡ MessageType.to_uint16 t)
type_from_name-type_name_server t = (
  ap (λ n. type_from_name (bytes_eq n)) (sym (type_name-counterpart t))
      ∙ type_from_name-type_name (counterpart t),
  ap MessageType.type_from_name (type_name-counterpart t) ∙ Names.type_from_name-type_name t,
  to_uint8-counterpart t,
)
