-- ===== src/Client/Codec/Echo.antt =====
-- What a client makes of the frame that a client encodes.
use ccmeeting.Common.{
  ℕ, ◌^◌, ◌≤◌, ◌<◌, ◌≡◌, refl, ap, ◌∙◌, Option, none, some, [], ◌==◌, if◌then◌else◌, All,
  All-append, Bytes, IsByte, IsBytes,
}
use ccmeeting.Wire.{write_uint32_be}
use ccmeeting.Wire.RoundTrip.{write_uint32_be-IsBytes}
use ccmeeting.Client.Message.{Message, Body, kind, room_no_u32}
use ccmeeting.Client.Types.{MsgType, to_wire_type, partner_kind_from_wire}
use ccmeeting.Client.Payload.{
  decode_text_recv, decode_simple_user_event, decode_join_meeting_response,
  decode_create_meeting_response, message_of, payload_of, text_field, decode_payload, read_or_zero,
}
use ccmeeting.Client.Payload.RoundTrip.{
  ProfileFits, read_or_zero-write, encode_partner_ids-IsBytes, decode-encode_partner_ids,
  encode_user_profile_payload-IsBytes, decode-encode_user_profile_payload,
}
use ccmeeting.Client.Qt.{Qt, IsQt}
use ccmeeting.Client.Codec.{
  header, insert_payload, frame_object, encode_wire_frame, decode_object, decode_json_frame,
}
use ccmeeting.Client.Codec.RoundTrip.{
  frame_object-Regular, decode_json_frame-to_json, decode-insert_payload, decode-insert_text,
}

-- The values of a message fit their widths on the wire, and its texts are bytes.
abbrev pub HasWidths : ℕ → Body → Type 0
HasWidths user_id (Body.create_meeting_response room_no) = room_no < 2 ^ 32
HasWidths user_id (Body.join_meeting_response code) = code < 2 ^ 32
HasWidths user_id (Body.partner_join2 ids) = All (λ id. id < 2 ^ 64) ids
HasWidths user_id (Body.room_settings_notify flags) = flags < 2 ^ 32
HasWidths user_id (Body.user_profile_notify name avatar) = ProfileFits user_id name avatar
HasWidths user_id (Body.send_user_profile name avatar) = ProfileFits user_id name avatar
HasWidths user_id _ = Unit

module _ (q : Qt) where
  -- The notice of a profile: the id on the frame counts, unless it is 0.
  abbrev pub profile_notice : (own sender : ℕ) → Bytes → Bytes → Message
  profile_notice own sender name avatar = record {
    user_id = if sender == 0 then own else sender;
    body = Body.user_profile_notify (text_field q name) (text_field q avatar);
  }

  -- What a client is to make of a message with this body, if `sender` is the id on the frame and
  -- `own` the id in the message.
  abbrev pub received : (own sender : ℕ) → Body → Option Message
  received own sender (Body.create_meeting_response room_no) =
      some (message_of (Body.create_meeting_response room_no))
  received own sender (Body.join_meeting_response code) =
      some (message_of (Body.join_meeting_response code))
  received own sender (Body.partner_join2 ids) = some (message_of (Body.partner_join2 ids))
  received own sender (Body.room_settings_notify flags) =
      some (message_of (Body.room_settings_notify flags))
  received own sender (Body.user_profile_notify name avatar) =
      some (profile_notice own sender name avatar)
  received own sender (Body.send_user_profile name avatar) =
      some (profile_notice own sender name avatar)
  received own sender Body.partner_join =
      some (record { user_id = sender; body = Body.partner_join })
  received own sender Body.partner_exit =
      some (record { user_id = sender; body = Body.partner_exit })
  received own sender Body.close_camera =
      some (record { user_id = sender; body = Body.close_camera_notify })
  received own sender Body.close_camera_notify =
      some (record { user_id = sender; body = Body.close_camera_notify })
  received own sender (Body.recv_text text) =
      some (record { user_id = sender; body = Body.recv_text [] })
  received own sender _ = none

module _ (q : Qt) (law : IsQt q) (own sender : ℕ) (small : sender ≤ 2 ^ 53) where
  -- A body whose payload is `payload`, with the type of its frame.
  through :
      (type : MsgType) (payload : Bytes) {result : Option Message}
      → IsBytes payload
      → decode_payload q payload sender type ≡ result
      → decode_object q (insert_payload q (header q type sender) payload) ≡ result
  through type payload h e = decode-insert_payload q law type sender payload small h ∙ e

  number :
      (type : MsgType) (n : ℕ) (f : ℕ → Body)
      → n < 2 ^ 32
      → ((b : Bytes) → decode_payload q b sender type ≡ some (message_of (f (read_or_zero b))))
      → decode_object q (insert_payload q (header q type sender) (write_uint32_be n))
        ≡ some (message_of (f n))
  number type n f h e =
      through type (write_uint32_be n) (write_uint32_be-IsBytes n)
        (e (write_uint32_be n) ∙ ap (λ k. some (message_of (f k))) (read_or_zero-write n h))

  decode_object-frame_object :
      (body : Body)
      → HasWidths own body
      → decode_object q (frame_object q (record { user_id = own; body = body }) sender)
        ≡ received q own sender body
  unfolding frame_object payload_of decode_payload decode_create_meeting_response
      decode_join_meeting_response decode_simple_user_event decode_text_recv kind to_wire_type
      partner_kind_from_wire
  decode_object-frame_object (Body.create_meeting_response n) h =
      number MsgType.create_meeting_response n Body.create_meeting_response h (λ b. refl)
  decode_object-frame_object (Body.join_meeting_response n) h =
      number MsgType.join_meeting_response n Body.join_meeting_response h (λ b. refl)
  decode_object-frame_object (Body.room_settings_notify n) h =
      number MsgType.room_settings_notify n Body.room_settings_notify h (λ b. refl)
  decode_object-frame_object (Body.partner_join2 ids) h =
      through MsgType.partner_join2 _ (encode_partner_ids-IsBytes ids)
        (ap some (decode-encode_partner_ids ids h))
  decode_object-frame_object (Body.user_profile_notify name avatar) h =
      through MsgType.user_profile _ (encode_user_profile_payload-IsBytes own name avatar h)
        (decode-encode_user_profile_payload own name avatar h q sender)
  decode_object-frame_object (Body.send_user_profile name avatar) h =
      through MsgType.user_profile _ (encode_user_profile_payload-IsBytes own name avatar h)
        (decode-encode_user_profile_payload own name avatar h q sender)
  decode_object-frame_object (Body.create_meeting m d) h =
      through MsgType.create_meeting _
        (All-append IsByte (write_uint32_be m) _ (write_uint32_be-IsBytes m)
          (write_uint32_be-IsBytes d))
        refl
  decode_object-frame_object (Body.join_meeting room) h =
      through MsgType.join_meeting _ (write_uint32_be-IsBytes (room_no_u32 room)) refl
  decode_object-frame_object (Body.room_settings flags) h =
      through MsgType.room_settings _ (write_uint32_be-IsBytes flags) refl
  decode_object-frame_object (Body.send_text text) h = decode-insert_text q law sender small text
  decode_object-frame_object (Body.recv_text text) h = through MsgType.text_recv [] tt refl
  decode_object-frame_object Body.exit_meeting h = through MsgType.exit_meeting [] tt refl
  decode_object-frame_object Body.close_camera h = through MsgType.close_camera [] tt refl
  decode_object-frame_object Body.partner_join h = through MsgType.partner_join [] tt refl
  decode_object-frame_object Body.partner_exit h = through MsgType.partner_exit [] tt refl
  decode_object-frame_object Body.close_camera_notify h = through MsgType.close_camera [] tt refl
  decode_object-frame_object Body.remote_host_closed_error h =
      through MsgType.remote_host_closed_error [] tt refl
  decode_object-frame_object Body.other_net_error h = through MsgType.other_net_error [] tt refl

  -- Over a Qt with the documented behaviour, a client that decodes the frame that a client encoded
  -- with a user id up to 2^53 gets what the message is to arrive as: responses, the partners' ids,
  -- settings and profiles (their strings through UTF-8 and up to a NUL) with the values of the
  -- message if these fit their widths, events with the id on the frame, a received text empty, and
  -- nothing for the requests that only the server takes.
  pub decode-encode_wire_frame :
      (body : Body)
      → HasWidths own body
      → decode_json_frame q (encode_wire_frame q (record { user_id = own; body = body }) sender)
        ≡ received q own sender body
  unfolding encode_wire_frame
  decode-encode_wire_frame body h =
      decode_json_frame-to_json q law _ (frame_object-Regular q law own body sender)
      ∙ decode_object-frame_object body h
