-- ===== src/Tests/Client.antt =====
-- The client's messages, their queue and its codec.
use ccmeeting.Common.{
  ◌≤◌, ◌≡◌, refl, true, false, some, List, [], ◌∷◌, arith, length, Bytes, codes, bytes_eq,
}
use ccmeeting.Protocol.MessageType
use ccmeeting.Protocol.Codec.{Packet, ok, parse_and_decode, encode}
use ccmeeting.Client.Message.{Message, Body, room_no_u32}
use ccmeeting.Client.Types
use ccmeeting.Client.Types.{MsgType}
use ccmeeting.Client.Types.Agreement.{type_from_name-type_name_server}
use ccmeeting.Client.Hub
use ccmeeting.Client.Hub.Heard.{IsHeard, decode_payload-IsHeard}
use ccmeeting.Common.Table.{lookup}
use ccmeeting.Client.Window
use ccmeeting.Client.Window.{User, Window, Event, on_events}
use ccmeeting.Client.Window.Members.{view, view-on_events}
use ccmeeting.Client.Queue.Order.{
  Call, pushes, pops, run, new_queue, IsBounded, popped, run-IsBounded, popped-all,
}
use ccmeeting.Client.Payload.{decode_payload, decode_simple_user_event}
use ccmeeting.Client.Payload.RoundTrip.{ProfileFits}
use ccmeeting.Client.Codec.{max_buffer, encode_wire_frame, decode_json_frame, one_or_none, feed}
use ccmeeting.Client.Codec.Echo.{received, decode-encode_wire_frame}
use ccmeeting.Client.Codec.Feed.{feed-bounded, feed-encode_wire_frame}
use ccmeeting.Client.Interop.Upstream.{parse_and_decode-encode_wire_frame}
use ccmeeting.Client.Interop.Downstream.{decode_json_frame-encode}
use ccmeeting.Client.Interop.Requests.{room_no_u32-typed}
use ccmeeting.Tests.FlatJson.{flat_json, flat_json-IsJson, or_empty}
use ccmeeting.Tests.FlatQt.{flat_qt, flat_qt-IsQt, flat-IsInterop}

-- A text, a request and a notice.
abbrev hello : Message
hello = record { user_id = 0; body = Body.send_text (codes "hello") }

abbrev leave : Message
leave = record { user_id = 0; body = Body.exit_meeting }

abbrev profile_body : Body
profile_body = Body.user_profile_notify (codes "Ann") (codes "/a.png")

abbrev some_calls : List Call
some_calls = pushes true hello ∷ pushes true leave ∷ pops ∷ pushes false hello ∷ []

run-IsBounded_example : IsBounded (run some_calls new_queue)
run-IsBounded_example = run-IsBounded some_calls

-- The request overtakes the text that was pushed before it.
popped-all_example :
    popped 2 (record { control = leave ∷ []; text = hello ∷ [] }) ≡ leave ∷ hello ∷ []
popped-all_example = popped-all (record { control = leave ∷ []; text = hello ∷ [] })

type_from_name-type_name_server_example :
    (Types.type_from_name (bytes_eq (MessageType.type_name MessageType.partner_join2))
      ≡ some MsgType.partner_join2)
    × (MessageType.type_from_name (Types.type_name MsgType.partner_join2)
        ≡ some MessageType.partner_join2)
    × (Types.to_uint8 MsgType.partner_join2 ≡ MessageType.to_uint16 MessageType.partner_join2)
type_from_name-type_name_server_example = type_from_name-type_name_server MessageType.partner_join2

profile_fits : ProfileFits 7 (codes "Ann") (codes "/a.png")
profile_fits = record {
  id_fits = omega arith;
  name_fits = omega arith;
  avatar_fits = omega arith;
  name_bytes = omega arith;
  avatar_bytes = omega arith;
}

decode-encode_wire_frame_example :
    decode_json_frame flat_qt
      (encode_wire_frame flat_qt (record { user_id = 7; body = profile_body }) 9)
    ≡ received flat_qt 7 9 profile_body
decode-encode_wire_frame_example =
    decode-encode_wire_frame flat_qt flat_qt-IsQt 7 9 (omega arith) profile_body profile_fits

feed-encode_wire_frame_example :
    feed flat_qt (encode_wire_frame flat_qt (record { user_id = 7; body = profile_body }) 9) []
    ≡ (one_or_none flat_qt (received flat_qt 7 9 profile_body), [])
feed-encode_wire_frame_example =
    feed-encode_wire_frame flat_qt flat_qt-IsQt 7 9 (omega arith) profile_body profile_fits

feed-bounded_example :
    (length (feed flat_qt (codes "{}") (codes " ")).0 ≤ 1)
    × (length (feed flat_qt (codes "{}") (codes " ")).1 ≤ max_buffer)
feed-bounded_example = feed-bounded flat_qt (codes "{}") (codes " ") (omega arith) (omega arith)

parse_and_decode-encode_wire_frame_example :
    parse_and_decode flat_json (encode_wire_frame flat_qt hello 9)
    ≡ ok (record { type = MessageType.text_send; user_id = 9; payload = codes "hello" })
parse_and_decode-encode_wire_frame_example =
    parse_and_decode-encode_wire_frame flat_json flat_json-IsJson flat_qt flat_qt-IsQt
      flat-IsInterop 0 9 (omega arith) (Body.send_text (codes "hello")) MessageType.text_send refl
      tt (omega arith, refl)

abbrev text_packet : Packet
text_packet = record { type = MessageType.text_recv; user_id = 9; payload = codes "hello" }

abbrev text_frame : Bytes
text_frame = or_empty (encode flat_json text_packet)

encode-text_packet : encode flat_json text_packet ≡ some text_frame
unfolding encode
encode-text_packet = refl

decode_json_frame-encode_example :
    decode_json_frame flat_qt text_frame
    ≡ decode_payload flat_qt (codes "hello") 9 MsgType.text_recv
decode_json_frame-encode_example =
    decode_json_frame-encode flat_json flat_qt flat_qt-IsQt flat-IsInterop text_packet text_frame
      (omega arith) (omega arith) (λ e. refl) encode-text_packet

room_no_u32-typed_example : room_no_u32 (codes "123456") ≡ 123456
room_no_u32-typed_example = room_no_u32-typed 1 (2 ∷ 3 ∷ 4 ∷ 5 ∷ 6 ∷ []) (omega arith)

abbrev ann : User Bytes
ann = record { user_id = 7; name = codes "Ann"; avatar = codes "/a.png" }

-- The window before a session.
abbrev fresh : Window Bytes
fresh = record {
  participants = record { partners = []; main_user_id = 0 };
  session_ending = false;
  session_active = false;
  connecting = false;
  has_pending_connect = false;
}

-- Ann connects and joins; 4 and 5 are there, 6 comes and 5 leaves, and the host ends the meeting.
abbrev some_events : List (Event Bytes)
some_events =
    Window.connect_requested
    ∷ Window.connect_finished true
    ∷ Window.signal (Hub.join_meeting_result 100000)
    ∷ Window.signal (Hub.partners_snapshot (4 ∷ 5 ∷ []))
    ∷ Window.signal (Hub.partner_joined 6)
    ∷ Window.signal (Hub.partner_exited 5)
    ∷ []

-- Ann is a member.
view-on_events_example :
    view flat_qt ann 7 (on_events flat_qt ann some_events fresh)
    ≡ record { there = true; ending = false; active = true; connecting = false; pending = false }
unfolding lookup
view-on_events_example = view-on_events flat_qt ann 7 some_events fresh

decode_joined :
    decode_payload flat_qt [] 6 MsgType.partner_join
    ≡ some (record { user_id = 6; body = Body.partner_join })
unfolding decode_payload decode_simple_user_event Types.partner_kind_from_wire
decode_joined = refl

decode_payload-IsHeard_example : IsHeard flat_qt (record { user_id = 6; body = Body.partner_join })
decode_payload-IsHeard_example =
    decode_payload-IsHeard flat_qt [] 6 MsgType.partner_join
      (record { user_id = 6; body = Body.partner_join }) decode_joined
