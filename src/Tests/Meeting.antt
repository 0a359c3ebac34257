-- ===== src/Tests/Meeting.antt =====
-- The rooms and the events.
use ccmeeting.Common.{
  ℕ, ◌*◌, ◌≤◌, ◌≡◌, refl, true, false, ◌&&◌, not, none, some, [], ◌∷◌, arith, ◌==◌, if◌then◌else◌,
  replicate, Bytes, codes,
}
use ccmeeting.Common.Table.{Table, lookup, Distinct}
use ccmeeting.Common.Run.{Ensures, done}
use ccmeeting.Network.Connection.{new_connection, send}
use ccmeeting.Protocol.Codec.{Packet}
use ccmeeting.Protocol.MessageType.{room_settings}
use ccmeeting.Meeting.Room.{
  Participant, Room, RoomOptions, main_config, new_room, add_participant, start_expire_timer,
  apply_profile, make_user_profile_packet,
}
use ccmeeting.Meeting.Room.Profile.{IsEncodable, apply-make_user_profile_packet}
use ccmeeting.Meeting.World.{World, init}
use ccmeeting.Meeting.Relay.{send_all, handle_packet}
use ccmeeting.Meeting.Relay.Delivery.{send_all-lookup}
use ccmeeting.Meeting.Relay.Keeps.{IsAllowed, handle_packet-IsAllowed}
use ccmeeting.Meeting.Closing.{close, close_room}
use ccmeeting.Meeting.Manager.{choose_room_id, in_use}
use ccmeeting.Meeting.Manager.RoomId.{choose_room_id_total}
use ccmeeting.Meeting.Service.{
  accept, step, connected, failed, close_fuel, parse_create_meeting_options,
}
use ccmeeting.Meeting.Service.Options.{parse_create_meeting_options-bounds}
use ccmeeting.Meeting.Consistent.{Consistent}
use ccmeeting.Meeting.Consistent.Shut.{weaken-Consistent}
use ccmeeting.Meeting.Consistent.Close.{IsClosed, close-IsClosed, close_room-IsClosed}
use ccmeeting.Meeting.Consistent.Found.{new_room-IsNew, start_expire_timer-IsNew}
use ccmeeting.Meeting.Consistent.Enter.{founded, with_callback, founded-Consistent}
use ccmeeting.Meeting.Consistent.Arrive.{init-Consistent, accept-Consistent}
use ccmeeting.Meeting.Consistent.Steps.{start, next, step-Consistent, Reach-Consistent}
use ccmeeting.Protocol.MessageType.{text_send, text_recv}
use ccmeeting.Protocol.Codec.{encode}
use ccmeeting.Network.Connection.{Connection}
use ccmeeting.Meeting.Relay.Delivery.{is_entry, text_send-delivered}
use ccmeeting.Tests.FlatJson.{or_empty, flat_json}

abbrev ann : Participant
ann = record {
  connection = 1;
  user_id = 70;
  is_owner = true;
  display_name = codes "Ann";
  avatar_url = codes "/a.png";
}

abbrev nobody : Participant
nobody = record {
  connection = 2;
  user_id = 71;
  is_owner = false;
  display_name = [];
  avatar_url = [];
}

ann-IsEncodable : IsEncodable ann
ann-IsEncodable = record {
  id_fits = omega arith;
  name_fits = omega arith;
  avatar_fits = omega arith;
}

apply-make_user_profile_packet_example :
    apply_profile (make_user_profile_packet ann).payload nobody
    ≡ record nobody { user_id = 70; display_name = codes "Ann"; avatar_url = codes "/a.png" }
apply-make_user_profile_packet_example = apply-make_user_profile_packet ann nobody ann-IsEncodable

-- A server with one connection, and then with a meeting that the connection owns.
abbrev one_connection : World
one_connection = accept (init main_config)

one_connection-Consistent : Consistent none one_connection
one_connection-Consistent =
    accept-Consistent (init main_config) (init-Consistent main_config (omega arith))

abbrev options : RoomOptions
options = record { max_participants = 2; duration_minutes = 60 }

abbrev meeting_room : Room
meeting_room = start_expire_timer (new_room 123456 1 true main_config options 70)

abbrev one_meeting : World
one_meeting = founded 1 123456 1 meeting_room one_connection

one_meeting-Consistent : Consistent none one_meeting
unfolding accept init lookup new_connection
one_meeting-Consistent =
    founded-Consistent 1 123456 1 meeting_room one_connection one_connection-Consistent
      (start_expire_timer-IsNew main_config 123456 1 _
        (new_room-IsNew main_config 123456 1 options 70 (omega arith) (λ e. absurd (omega arith))))
      refl refl refl (omega arith)

-- The owner's connection fails: the room is closed with it.
step-Consistent_example : Ensures (Consistent none) (step flat_json one_meeting (failed 1))
step-Consistent_example = step-Consistent flat_json one_meeting (failed 1) one_meeting-Consistent

step-connected : step flat_json (init main_config) connected ≡ done one_connection
unfolding step
step-connected = refl

Reach-Consistent_example : Consistent none one_connection
Reach-Consistent_example =
    Reach-Consistent flat_json main_config one_connection (omega arith)
      (next (init main_config) one_connection connected start step-connected)

close-IsClosed_example : Ensures (IsClosed 1) (close flat_json close_fuel 1 one_meeting)
close-IsClosed_example = close-IsClosed flat_json 1 one_meeting one_meeting-Consistent

heap-one_meeting : one_meeting.heap 0 ≡ some (with_callback meeting_room)
unfolding accept init
heap-one_meeting = refl

open-meeting_room : (with_callback meeting_room).closed ≡ false
unfolding start_expire_timer new_room add_participant
open-meeting_room = refl

late : one_meeting.next_connection_id ≤ 9
unfolding accept init
late = omega arith

-- The owner is connection 1; connection 9 is not there.
close_room-IsClosed_example :
    Ensures (IsClosed 9) (close_room flat_json (close flat_json 2) 0 one_meeting)
close_room-IsClosed_example =
    close_room-IsClosed flat_json 1 9 0 one_meeting (with_callback meeting_room)
      (weaken-Consistent (some 0) one_meeting one_meeting-Consistent) heap-one_meeting
      open-meeting_room (one_meeting-Consistent.fresh_conns 9 late)

abbrev two_people : Table Participant
two_people = (1, ann) ∷ (2, nobody) ∷ []

two_people-Distinct : Distinct two_people
unfolding lookup
two_people-Distinct = (refl, (refl, tt))

send_all-lookup_example :
    send_all (5 ∷ []) 1 two_people one_connection.conns 2 ≡ send (5 ∷ []) (one_connection.conns 2)
unfolding lookup
send_all-lookup_example =
    send_all-lookup (5 ∷ []) 1 two_people one_connection.conns 2 two_people-Distinct

abbrev full_room : Room
full_room = record meeting_room { participants = two_people }

-- A participant who is not the owner asks for other settings.
abbrev settings_packet : Packet
settings_packet = record { type = room_settings; user_id = 71; payload = 0 ∷ 0 ∷ 0 ∷ 0 ∷ [] }

handle_packet-IsAllowed_example :
    Ensures
      (IsAllowed nobody full_room one_connection.conns)
      (handle_packet flat_json 2 settings_packet full_room one_connection.conns)
unfolding lookup
handle_packet-IsAllowed_example =
    handle_packet-IsAllowed flat_json 2 settings_packet nobody full_room one_connection.conns refl

-- Both random draws and the next number are taken.
abbrev taken : Table ℕ
taken = (123456, 0) ∷ (1, 1) ∷ []

choose_room_id_total_example :
    (r : ℕ × ℕ) × (choose_room_id (123456 ∷ 123456 ∷ []) 1 taken ≡ some r)
    × (in_use r.0 taken ≡ false)
choose_room_id_total_example =
    choose_room_id_total (123456 ∷ 123456 ∷ []) 1 taken (omega arith) (omega arith)

parse_create_meeting_options-bounds_example :
    (2 ≤ (parse_create_meeting_options (replicate 8 255) main_config).max_participants)
    × ((parse_create_meeting_options (replicate 8 255) main_config).max_participants ≤ 1024)
    × (1 ≤ (parse_create_meeting_options (replicate 8 255) main_config).duration_minutes)
    × ((parse_create_meeting_options (replicate 8 255) main_config).duration_minutes ≤ 24 * 60)
parse_create_meeting_options-bounds_example =
    parse_create_meeting_options-bounds (replicate 8 255) main_config (omega arith) (omega arith)

abbrev hello : Packet
hello = record { type = text_recv; user_id = 71; payload = codes "hello" }

abbrev hello_text : Bytes
hello_text = or_empty (encode flat_json hello)

encode-hello : encode flat_json hello ≡ some hello_text
unfolding encode
encode-hello = refl

-- The sender gives a number that is not its own; the text carries the number of its entry.
text_send-delivered_example :
    (conns' : ℕ → Connection) × (handle_packet flat_json 2
        (record { type = text_send; user_id = 99; payload = codes "hello" })
        full_room
        one_connection.conns
      ≡ done (full_room, conns'))
    × ((c : ℕ)
        → conns' c ≡ (
            if is_entry (lookup c two_people) && not (c == 2)
            then send hello_text (one_connection.conns c)
            else one_connection.conns c))
unfolding lookup start_expire_timer new_room add_participant
text_send-delivered_example =
    text_send-delivered flat_json 2 99 (codes "hello") nobody full_room one_connection.conns
      hello_text refl refl two_people-Distinct encode-hello
