-- ===== src/Client/Hub/Heard.antt =====
-- What the codec decodes reaches the meeting window.
use ccmeeting.Common.{
  ℕ, ◌+◌, ◌≡◌, refl, Bool, true, false, Option, none, some, ltb, ◌==◌, if◌then◌else◌, subst, length,
  take, drop, Bytes,
}
use ccmeeting.Wire.{read_uint16_be, read_be64}
use ccmeeting.Client.Message.{Message, Body, kind}
use ccmeeting.Client.Types.{MsgType, partner_kind_from_wire}
use ccmeeting.Client.Qt.{Qt}
use ccmeeting.Client.Payload.{
  decode_create_meeting_response, decode_join_meeting_response, decode_partner_join2,
  decode_text_recv, decode_simple_user_event, decode_avatar, decode_user_profile, decode_payload,
  text_field,
}
use ccmeeting.Client.Hub.{
  Signal, emit_incoming, dispatch_request, dispatch_user_info, dispatch_text, heard,
}

module _ (q : Qt) where
  abbrev pub IsHeard : Message → Type 0
  IsHeard m = (s : Signal q.Str) × (heard q m ≡ some s)

  -- A result of the decoder is heard, if there is one.
  abbrev HeardIf : Option Message → Type 0
  HeardIf none = Unit
  HeardIf (some m) = IsHeard m

  unless-HeardIf : (b : Bool) (o : Option Message) → HeardIf o → HeardIf (if b then none else o)
  unless-HeardIf true o h = tt
  unless-HeardIf false o h = h

  notice-HeardIf :
      (user_id : ℕ) (name avatar : Bytes)
      → HeardIf (some (record { user_id = user_id; body = Body.user_profile_notify name avatar }))
  unfolding heard emit_incoming dispatch_user_info kind
  notice-HeardIf user_id name avatar = (_, refl)

  avatar-HeardIf :
      (offset : ℕ) (body : Bytes) (user_id : ℕ) (name : Bytes)
      → HeardIf (decode_avatar q offset body user_id name)
  unfolding decode_avatar
  avatar-HeardIf offset body user_id name =
      let avatar_len = read_uint16_be (drop offset body) in
      unless-HeardIf (ltb (length body) (offset + 2 + avatar_len))
        (some (record {
          user_id = user_id;
          body =
              Body.user_profile_notify (text_field q name)
                (text_field q (take avatar_len (drop (offset + 2) body)));
        }))
        (notice-HeardIf user_id (text_field q name)
          (text_field q (take avatar_len (drop (offset + 2) body))))

  profile-HeardIf : (body : Bytes) (sender : ℕ) → HeardIf (decode_user_profile q body sender)
  unfolding decode_user_profile
  profile-HeardIf body sender =
      let name_len = read_uint16_be (drop 8 body) in
      let rest : Option Message =
        decode_avatar q (10 + name_len) body (if sender == 0 then read_be64 body else sender)
          (take name_len (drop 10 body)) in
      unless-HeardIf (ltb (length body) 12)
        (if ltb (length body) (10 + name_len + 2) then none else rest)
        (unless-HeardIf (ltb (length body) (10 + name_len + 2)) rest (avatar-HeardIf _ body _ _))

  payload-HeardIf :
      (payload : Bytes) (user_id : ℕ) (t : MsgType) → HeardIf (decode_payload q payload user_id t)
  unfolding decode_payload heard emit_incoming dispatch_request dispatch_user_info dispatch_text
      kind decode_create_meeting_response decode_join_meeting_response decode_partner_join2
      decode_text_recv decode_simple_user_event partner_kind_from_wire
  payload-HeardIf payload user_id MsgType.user_profile = profile-HeardIf payload user_id
  payload-HeardIf payload user_id MsgType.create_meeting_response = (_, refl)
  payload-HeardIf payload user_id MsgType.join_meeting_response = (_, refl)
  payload-HeardIf payload user_id MsgType.partner_join2 = (_, refl)
  payload-HeardIf payload user_id MsgType.text_recv = (_, refl)
  payload-HeardIf payload user_id MsgType.room_settings_notify = (_, refl)
  payload-HeardIf payload user_id MsgType.partner_join = (_, refl)
  payload-HeardIf payload user_id MsgType.partner_exit = (_, refl)
  payload-HeardIf payload user_id MsgType.close_camera = (_, refl)
  payload-HeardIf payload user_id _ = tt

  -- Every message that the payload decoder returns, of whatever type and payload, is passed by the
  -- hub to a function of the dispatcher that emits a signal for it.
  pub decode_payload-IsHeard :
      (payload : Bytes) (user_id : ℕ) (t : MsgType) (m : Message)
      → decode_payload q payload user_id t ≡ some m
      → IsHeard m
  decode_payload-IsHeard payload user_id t m e = subst HeardIf e (payload-HeardIf payload user_id t)
