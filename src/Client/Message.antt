-- ===== src/Client/Message.antt =====
-- client/include/network/messageNet/message.h: the message classes and their kinds.
use ccmeeting.Common.{
  ℕ, ◌+◌, ◌-◌, ◌*◌, ◌%◌, ◌^◌, Bool, true, false, ◌&&◌, ◌||◌, Option, none, some, List, [], ◌∷◌, leb,
  ◌==◌, if◌then◌else◌, length, Bytes,
}

-- `MessageKind`
pub data MessageKind : Type 0 where
  create_meeting join_meeting exit_meeting close_camera : MessageKind
  send_text send_user_profile room_settings : MessageKind
  create_meeting_response join_meeting_response recv_text : MessageKind
  partner_join partner_exit partner_join2 close_camera_notify : MessageKind
  user_profile_notify room_settings_notify : MessageKind
  remote_host_closed_error other_net_error : MessageKind

-- `MessagePriority`
pub data MessagePriority : Type 0 where
  control text : MessagePriority

-- The subclass of a message object with its members. A `qint64` and an `int32_t` are held as their
-- two's complement bits.
pub data Body : Type 0 where
  create_meeting : (max_participants duration_minutes : ℕ) → Body
  join_meeting : (room_no : Bytes) → Body
  exit_meeting close_camera : Body
  send_user_profile : (display_name avatar_url : Bytes) → Body
  room_settings : (flags : ℕ) → Body
  send_text : (text : Bytes) → Body
  create_meeting_response : (room_no : ℕ) → Body
  join_meeting_response : (response_code : ℕ) → Body
  recv_text : (text : Bytes) → Body
  partner_join partner_exit : Body
  partner_join2 : (partner_user_ids : List ℕ) → Body
  close_camera_notify : Body
  user_profile_notify : (display_name avatar_url : Bytes) → Body
  room_settings_notify : (flags : ℕ) → Body
  remote_host_closed_error other_net_error : Body

-- `Message`
pub record Message : Type 0 where
  pub user_id : ℕ
  pub body : Body

-- `kind()` of each subclass
unfoldable pub kind : Body → MessageKind
kind (create_meeting m d) = MessageKind.create_meeting
kind (join_meeting r) = MessageKind.join_meeting
kind exit_meeting = MessageKind.exit_meeting
kind close_camera = MessageKind.close_camera
kind (send_user_profile n a) = MessageKind.send_user_profile
kind (room_settings f) = MessageKind.room_settings
kind (send_text t) = MessageKind.send_text
kind (create_meeting_response r) = MessageKind.create_meeting_response
kind (join_meeting_response c) = MessageKind.join_meeting_response
kind (recv_text t) = MessageKind.recv_text
kind partner_join = MessageKind.partner_join
kind partner_exit = MessageKind.partner_exit
kind (partner_join2 ids) = MessageKind.partner_join2
kind close_camera_notify = MessageKind.close_camera_notify
kind (user_profile_notify n a) = MessageKind.user_profile_notify
kind (room_settings_notify f) = MessageKind.room_settings_notify
kind remote_host_closed_error = MessageKind.remote_host_closed_error
kind other_net_error = MessageKind.other_net_error

-- `send_priority()`: a text to send overrides it; every other class is `Control`.
unfoldable pub send_priority : Body → MessagePriority
send_priority (send_text t) = MessagePriority.text
send_priority _ = MessagePriority.control

-- `isspace` in the C locale
abbrev pub is_space : ℕ → Bool
is_space c = (c == 32) || (leb 9 c && leb c 13)

abbrev pub is_digit : ℕ → Bool
is_digit c = leb 48 c && leb c 57

-- The digits at the front, read as a decimal number behind `value`.
unfoldable pub digits : ℕ → Bytes → ℕ
digits value [] = value
digits value (c ∷ s) =
    let rest = digits (value * 10 + (c - 48)) s in if is_digit c then rest else value

-- The digits of `std::stoul`, of which there must be one: a value that does not fit
-- `unsigned long`, of 32 bits with the client's compiler, throws, and a minus sign negates modulo 2^32.
abbrev unsigned_long : Bool → Bytes → Option ℕ
unsigned_long negative [] = none
unsigned_long negative (c ∷ s) =
    let value = digits 0 (c ∷ s) in
    if is_digit c
    then (if leb (2 ^ 32) value
        then none
        else if negative
        then some ((2 ^ 32 - value) % 2 ^ 32)
        else some value)
    else none

abbrev signed_long : Bytes → Option ℕ
signed_long [] = none
signed_long (c ∷ s) =
    if c == b'-'
    then unsigned_long true s
    else if c == b'+'
    then unsigned_long false s
    else unsigned_long false (c ∷ s)

-- `std::stoul`: `none` is an exception.
unfoldable pub stoul : Bytes → Option ℕ
stoul [] = none
stoul (c ∷ s) = let rest = stoul s in if is_space c then rest else signed_long (c ∷ s)

abbrev pub or_zero : Option ℕ → ℕ
or_zero none = 0
or_zero (some n) = n % 2 ^ 32

-- `JoinMeetingMessage::room_no_u32`
unfoldable pub room_no_u32 : Bytes → ℕ
room_no_u32 room_no = if length room_no == 0 then 0 else or_zero (stoul room_no)
