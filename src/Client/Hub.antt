-- ===== src/Client/Hub.antt =====
-- From the network to the meeting window: `MessageHub::emit_incoming` of
-- client/src/network/messageNet/messagehub.cpp and `MeetingProtocolDispatcher` of
-- client/src/widget/meeting/meeting_protocol_dispatcher.cpp.
pub mod Heard
use ccmeeting.Common.{ℕ, Option, none, some, List}
use ccmeeting.Client.Message.{Message, Body, MessageKind, kind}
use ccmeeting.Client.Qt.{Qt}

-- The signals of the hub: `request_message_ready`, `user_info_message_ready`, `text_message_ready`.
pub data Channel : Type 0 where
  request user_info text : Channel

-- `emit_incoming`
unfoldable pub emit_incoming : MessageKind → Option Channel
emit_incoming MessageKind.create_meeting_response = some request
emit_incoming MessageKind.join_meeting_response = some request
emit_incoming MessageKind.remote_host_closed_error = some request
emit_incoming MessageKind.other_net_error = some request
emit_incoming MessageKind.partner_join = some user_info
emit_incoming MessageKind.partner_exit = some user_info
emit_incoming MessageKind.partner_join2 = some user_info
emit_incoming MessageKind.close_camera_notify = some user_info
emit_incoming MessageKind.user_profile_notify = some user_info
emit_incoming MessageKind.room_settings_notify = some user_info
emit_incoming MessageKind.recv_text = some text
emit_incoming _ = none

-- The signals of the dispatcher.
pub data Signal (Str : Type 0) : Type 0 where
  create_meeting_result : (room_no : ℕ) → Signal Str
  join_meeting_result : (response_code : ℕ) → Signal Str
  remote_host_closed other_net_error : Signal Str
  partner_joined partner_exited camera_closed : (user_id : ℕ) → Signal Str
  partners_snapshot : (user_ids : List ℕ) → Signal Str
  room_settings_received : (flags : ℕ) → Signal Str
  user_profile : (user_id : ℕ) (display_name avatar_url : Str) → Signal Str
  text_received : (user_id : ℕ) (text : Str) → Signal Str

module _ (q : Qt) where
  -- `dispatch_request`; `none` emits nothing.
  unfoldable pub dispatch_request : Message → Option (Signal q.Str)
  dispatch_request m = elim m.body [
    | Body.create_meeting_response room_no ↦ some (create_meeting_result room_no)
    | Body.join_meeting_response code ↦ some (join_meeting_result code)
    | Body.remote_host_closed_error ↦ some remote_host_closed
    | Body.other_net_error ↦ some other_net_error
    | _ ↦ none
  ]

  unfoldable pub dispatch_user_info : Message → Option (Signal q.Str)
  dispatch_user_info m = elim m.body [
    | Body.partner_join ↦ some (partner_joined m.user_id)
    | Body.partner_exit ↦ some (partner_exited m.user_id)
    | Body.close_camera_notify ↦ some (camera_closed m.user_id)
    | Body.partner_join2 ids ↦ some (partners_snapshot ids)
    | Body.room_settings_notify flags ↦ some (room_settings_received flags)
    | Body.user_profile_notify name avatar ↦
        some (user_profile m.user_id (q.from_utf8 name) (q.from_utf8 avatar))
    | _ ↦ none
  ]

  unfoldable pub dispatch_text : Message → Option (Signal q.Str)
  dispatch_text m = elim m.body [
    | Body.recv_text s ↦ some (text_received m.user_id (q.from_utf8 s))
    | _ ↦ none
  ]

  -- The slots of `MeetingWidget` pass each channel to its function.
  abbrev pub dispatch : Option Channel → Message → Option (Signal q.Str)
  dispatch none m = none
  dispatch (some request) m = dispatch_request m
  dispatch (some user_info) m = dispatch_user_info m
  dispatch (some text) m = dispatch_text m

  -- What the meeting window hears of a message that came in.
  unfoldable pub heard : Message → Option (Signal q.Str)
  unfolding dispatch_request dispatch_user_info dispatch_text
  heard m = dispatch (emit_incoming (kind m.body)) m
