-- ===== src/Client/Payload.antt =====
-- The payload decoders and encoders of client/src/network/messageNet/messagecodec.cpp, whose layout is
-- big-endian as that of the server.
pub mod RoundTrip
use ccmeeting.Common.{
  ℕ, zero, suc, ◌+◌, ◌%◌, ◌^◌, Option, none, some, List, [], ◌∷◌, ◌++◌, ltb, leb, ◌==◌,
  if◌then◌else◌, length, take, drop, Bytes, c_string,
}
use ccmeeting.Wire.{
  read_uint16_be, read_uint32_be, read_be64, write_uint16_be, write_uint32_be, write_be64,
}
use ccmeeting.Client.Message.{Message, Body, MessageKind, room_no_u32}
use ccmeeting.Client.Types.{MsgType, partner_kind_from_wire}
use ccmeeting.Client.Qt.{Qt}

-- A message object before `set_user_id`.
abbrev pub message_of : Body → Message
message_of body = record { user_id = 0; body = body }

-- The four bytes at the front; a member that is not set stays 0.
abbrev pub read_or_zero : Bytes → ℕ
read_or_zero body = if leb 4 (length body) then read_uint32_be body else 0

unfoldable pub decode_create_meeting_response : Bytes → Message
decode_create_meeting_response body = message_of (Body.create_meeting_response (read_or_zero body))

unfoldable pub decode_join_meeting_response : Bytes → Message
decode_join_meeting_response body = message_of (Body.join_meeting_response (read_or_zero body))

-- The loop of `decode_partner_join2`: `n` bounds its rounds, each of which takes eight bytes.
unfoldable pub partner_ids_loop : ℕ → Bytes → List ℕ
partner_ids_loop zero body = []
partner_ids_loop (suc n) body =
    let rest = partner_ids_loop n (drop 8 body) in
    if leb 8 (length body) then read_be64 body ∷ rest else []

unfoldable pub decode_partner_join2 : Bytes → Message
decode_partner_join2 body = message_of (Body.partner_join2 (partner_ids_loop (length body) body))

unfoldable pub decode_text_recv : Bytes → ℕ → Message
decode_text_recv body user_id = record { user_id = user_id; body = Body.recv_text body }

-- `decode_simple_user_event`
unfoldable pub decode_simple_user_event : MessageKind → ℕ → Message
decode_simple_user_event kind user_id = record {
  user_id = user_id;
  body = elim kind [
    | MessageKind.partner_exit ↦ Body.partner_exit
    | MessageKind.close_camera_notify ↦ Body.close_camera_notify
    | _ ↦ Body.partner_join
  ];
}

unfoldable pub encode_user_profile_payload : ℕ → Bytes → Bytes → Bytes
encode_user_profile_payload user_id name avatar =
    write_be64 user_id
    ++ (write_uint16_be (length name % 2 ^ 16)
        ++ (name ++ (write_uint16_be (length avatar % 2 ^ 16) ++ avatar)))

-- The identifiers of `PartnerJoin2`, as bytes.
unfoldable pub encode_partner_ids : List ℕ → Bytes
encode_partner_ids [] = []
encode_partner_ids (id ∷ ids) = write_be64 id ++ encode_partner_ids ids

-- The payload that `encode_wire_frame` builds for a message that is no text to send.
unfoldable pub payload_of : Message → Bytes
payload_of m = elim m.body [
  | Body.create_meeting max_participants duration_minutes ↦
      write_uint32_be max_participants ++ write_uint32_be duration_minutes
  | Body.join_meeting room_no ↦ write_uint32_be (room_no_u32 room_no)
  | Body.room_settings flags ↦ write_uint32_be flags
  | Body.send_user_profile name avatar ↦ encode_user_profile_payload m.user_id name avatar
  | Body.create_meeting_response room_no ↦ write_uint32_be room_no
  | Body.join_meeting_response code ↦ write_uint32_be code
  | Body.partner_join2 ids ↦ encode_partner_ids ids
  | Body.room_settings_notify flags ↦ write_uint32_be flags
  | Body.user_profile_notify name avatar ↦ encode_user_profile_payload m.user_id name avatar
  | _ ↦ []
]

module _ (q : Qt) where
  -- A field that went through `QString`, and through a C string into a `std::string`.
  abbrev pub text_field : Bytes → Bytes
  text_field field = c_string (q.to_utf8 (q.from_utf8 field))

  -- The avatar's part of `decode_user_profile`, from `offset` on.
  unfoldable pub decode_avatar : ℕ → Bytes → ℕ → Bytes → Option Message
  decode_avatar offset body user_id name =
      let avatar_len = read_uint16_be (drop offset body) in
      if ltb (length body) (offset + 2 + avatar_len)
      then none
      else some (record {
        user_id = user_id;
        body =
            Body.user_profile_notify (text_field name)
              (text_field (take avatar_len (drop (offset + 2) body)));
      })

  -- `none` is a null pointer.
  unfoldable pub decode_user_profile : Bytes → ℕ → Option Message
  decode_user_profile body sender_user_id =
      if ltb (length body) 12
      then none
      else (let name_len = read_uint16_be (drop 8 body) in
          if ltb (length body) (10 + name_len + 2)
          then none
          else decode_avatar (10 + name_len) body
              (if sender_user_id == 0 then read_be64 body else sender_user_id)
              (take name_len (drop 10 body)))

  -- `MessageCodec::decode_payload`
  unfoldable pub decode_payload : Bytes → ℕ → MsgType → Option Message
  decode_payload payload user_id type = elim type [
    | MsgType.create_meeting_response ↦ some (decode_create_meeting_response payload)
    | MsgType.join_meeting_response ↦ some (decode_join_meeting_response payload)
    | MsgType.partner_join2 ↦ some (decode_partner_join2 payload)
    | MsgType.text_recv ↦ some (decode_text_recv payload user_id)
    | MsgType.user_profile ↦ decode_user_profile payload user_id
    | MsgType.room_settings_notify ↦
        some (message_of (Body.room_settings_notify (read_or_zero payload)))
    | MsgType.partner_join ↦
        some (decode_simple_user_event (partner_kind_from_wire MsgType.partner_join) user_id)
    | MsgType.partner_exit ↦
        some (decode_simple_user_event (partner_kind_from_wire MsgType.partner_exit) user_id)
    | MsgType.close_camera ↦
        some (decode_simple_user_event (partner_kind_from_wire MsgType.close_camera) user_id)
    | _ ↦ none
  ]
