-- ===== src/Client/Interop/Upstream.antt =====
-- The server decodes what a client sends.
use ccmeeting.Common.{
  ℕ, ◌^◌, ◌≤◌, ◌≡◌, sym, ap, ap₂, ◌∙◌, Option, none, some, [], ◌∷◌, some_inj, subst, All-append,
  Bytes, IsByte, IsBytes, bytes_eq,
}
use ccmeeting.Base64.{base64_encode}
use ccmeeting.Wire.{write_uint32_be}
use ccmeeting.Wire.RoundTrip.{write_uint32_be-IsBytes}
use ccmeeting.Protocol.MessageType
use ccmeeting.Protocol.MessageType.{is_text_type}
use ccmeeting.Protocol.Json.{Json, IsJson}
use ccmeeting.Protocol.Codec.{Decode, decode_payload, decode_document, parse_and_decode, ok}
use ccmeeting.Protocol.Codec.RoundTrip.{
  decode_document_lem, decode_payload_s, decode_payload_p, decode_payload_none,
}
use ccmeeting.Client.Message.{Message, Body, kind, room_no_u32}
use ccmeeting.Client.Types.{type_name, to_wire_type}
use ccmeeting.Client.Types.Agreement.{counterpart, type_name-counterpart}
use ccmeeting.Client.Payload.{payload_of}
use ccmeeting.Client.Payload.RoundTrip.{
  encode_user_profile_payload-IsBytes, encode_partner_ids-IsBytes,
}
use ccmeeting.Client.Qt.{Qt, IsQt}
use ccmeeting.Client.Codec.{
  insert_payload, key_t, key_u, key_s, key_p, header, frame_object, encode_wire_frame,
}
use ccmeeting.Client.Codec.Echo.{HasWidths}
use ccmeeting.Client.Interop
use ccmeeting.Client.Interop.{
  IsInterop, Members, Shows, object_with, header_members, payload_members, text_members,
  payload-All, text-All, base64_encode_ascii, type_name_ascii,
}

-- The type of a message that a client has for the server.
abbrev pub upstream_type : Body → Option MessageType.MessageType
upstream_type (Body.create_meeting m d) = some MessageType.create_meeting
upstream_type (Body.join_meeting r) = some MessageType.join_meeting
upstream_type Body.exit_meeting = some MessageType.exit_meeting
upstream_type Body.close_camera = some MessageType.close_camera
upstream_type (Body.send_text t) = some MessageType.text_send
upstream_type (Body.send_user_profile n a) = some MessageType.user_profile
upstream_type (Body.room_settings f) = some MessageType.room_settings
upstream_type _ = none

-- Its payload: a text goes as UTF-8.
abbrev pub sent_payload : Message → Bytes
sent_payload m = elim m.body [ Body.send_text text ↦ text | _ ↦ payload_of m ]

-- A text to send is valid UTF-8.
abbrev pub IsUtf8 : Qt → Body → Type 0
IsUtf8 q (Body.send_text text) = IsBytes text × (q.to_utf8 (q.from_utf8 text) ≡ text)
IsUtf8 q _ = Unit

module _ (j : Json) (served : IsJson j) (q : Qt) (law : IsQt q) (inter : IsInterop j q) where
  from_latin1-type_name :
      (t : MessageType.MessageType)
      → q.from_latin1 (type_name (counterpart t)) ≡ q.from_utf8 (MessageType.type_name t)
  from_latin1-type_name t =
      sym (law.from_utf8_ascii _ (type_name_ascii (counterpart t)))
      ∙ ap q.from_utf8 (type_name-counterpart t)

  header-object_with :
      (t : MessageType.MessageType) (sender : ℕ)
      → header q (counterpart t) sender ≡ object_with q (header_members t sender)
  header-object_with t sender =
      ap (λ n. q.insert_double (q.insert_string q.empty_object key_t n) key_u (q.to_double sender))
        (from_latin1-type_name t)

  from_latin1-to_base64 :
      (b : Bytes) → IsBytes b → q.from_latin1 (q.to_base64 b) ≡ q.from_utf8 (base64_encode b)
  from_latin1-to_base64 b h =
      ap q.from_latin1 (inter.to_base64-standard b h)
      ∙ sym (law.from_utf8_ascii (base64_encode b) (base64_encode_ascii b))

  insert_payload-object_with :
      (t : MessageType.MessageType) (sender : ℕ) (payload : Bytes)
      → IsBytes payload
      → insert_payload q (header q (counterpart t) sender) payload
        ≡ object_with q (payload_members t sender payload)
  insert_payload-object_with t sender [] h = header-object_with t sender
  insert_payload-object_with t sender (b ∷ bs) h =
      ap₂ (λ o s. q.insert_string o key_p s) (header-object_with t sender)
        (from_latin1-to_base64 (b ∷ bs) h)

  text-object_with :
      (t : MessageType.MessageType) (sender : ℕ) (text : Bytes)
      → q.insert_string (header q (counterpart t) sender) key_s (q.from_utf8 text)
        ≡ object_with q (text_members t sender text)
  text-object_with t sender text =
      ap (λ o. q.insert_string o key_s (q.from_utf8 text)) (header-object_with t sender)

  sent-IsBytes :
      (own : ℕ) (body : Body)
      → HasWidths own body
      → IsUtf8 q body
      → IsBytes (sent_payload (record { user_id = own; body = body }))
  unfolding payload_of
  sent-IsBytes own (Body.send_text text) h u = u.0
  sent-IsBytes own (Body.create_meeting m d) h u =
      All-append IsByte (write_uint32_be m) _ (write_uint32_be-IsBytes m)
        (write_uint32_be-IsBytes d)
  sent-IsBytes own (Body.join_meeting r) h u = write_uint32_be-IsBytes (room_no_u32 r)
  sent-IsBytes own (Body.room_settings f) h u = write_uint32_be-IsBytes f
  sent-IsBytes own (Body.send_user_profile n a) h u = encode_user_profile_payload-IsBytes own n a h
  sent-IsBytes own (Body.user_profile_notify n a) h u =
      encode_user_profile_payload-IsBytes own n a h
  sent-IsBytes own (Body.create_meeting_response r) h u = write_uint32_be-IsBytes r
  sent-IsBytes own (Body.join_meeting_response r) h u = write_uint32_be-IsBytes r
  sent-IsBytes own (Body.room_settings_notify r) h u = write_uint32_be-IsBytes r
  sent-IsBytes own (Body.partner_join2 ids) h u = encode_partner_ids-IsBytes ids
  sent-IsBytes own _ h u = tt

  -- The server decodes a frame whose object has these members to a packet.
  Received : MessageType.MessageType → ℕ → Bytes → q.Object → Type 0
  Received t sender payload o =
      parse_and_decode j (q.to_json o)
      ≡ ok (record { type = t; user_id = sender; payload = payload })

  header_shown :
      (t : MessageType.MessageType) (sender : ℕ) (d : j.Doc) (payload : Bytes)
      → sender ≤ 2 ^ 53
      → Shows j d key_t (some (Interop.text (MessageType.type_name t)))
      → Shows j d key_u (some (Interop.number sender))
      → ((k : Bytes → Decode) → decode_payload j d k ≡ k payload)
      → decode_document j d ≡ ok (record { type = t; user_id = sender; payload = payload })
  header_shown t sender d payload small ht hu p =
      decode_document_lem j served t sender d payload (ht.1 _) (hu.1 _) p small

  text_members-Received :
      (t : MessageType.MessageType) (sender : ℕ) (text : Bytes)
      → sender ≤ 2 ^ 53
      → IsBytes text
      → q.to_utf8 (q.from_utf8 text) ≡ text
      → Received t sender text (object_with q (text_members t sender text))
  unfolding bytes_eq Received
  text_members-Received t sender text small h valid =
      let (d, e, shown) =
        inter.parse-to_json (text_members t sender text)
          (text-All q law t sender text small h valid) in
      rw (e, parse_and_decode)
        (header_shown t sender d text small (shown key_t) (shown key_u)
          (λ k. decode_payload_s j served t sender d text k (shown key_s).0 ((shown key_s).1 [])))

  payload_members-Received :
      (t : MessageType.MessageType) (sender : ℕ) (payload : Bytes)
      → sender ≤ 2 ^ 53
      → IsBytes payload
      → Received t sender payload (object_with q (payload_members t sender payload))
  unfolding bytes_eq Received
  payload_members-Received t sender [] small h =
      let (d, e, shown) =
        inter.parse-to_json (payload_members t sender []) (payload-All q law t sender [] small) in
      rw (e, parse_and_decode)
        (header_shown t sender d [] small (shown key_t) (shown key_u)
          (λ k. decode_payload_none j served t sender d k (shown key_s) (shown key_p)))
  payload_members-Received t sender (b ∷ bs) small h =
      let (d, e, shown) =
        inter.parse-to_json (payload_members t sender (b ∷ bs))
          (payload-All q law t sender (b ∷ bs) small) in
      rw (e, parse_and_decode)
        (header_shown t sender d (b ∷ bs) small (shown key_t) (shown key_u) (λ k.
          decode_payload_p j served t sender d (b ∷ bs) k (shown key_s) (shown key_p).0
            ((shown key_p).1 []) h))

  payload-Received :
      (t s : MessageType.MessageType) (sender : ℕ) (payload : Bytes)
      → some s ≡ some t
      → sender ≤ 2 ^ 53
      → IsBytes payload
      → Received t sender payload (insert_payload q (header q (counterpart s) sender) payload)
  payload-Received t s sender payload e small h =
      subst
        (λ (u : MessageType.MessageType).
          Received u sender payload (insert_payload q (header q (counterpart s) sender) payload))
        (some_inj e)
        (subst (Received s sender payload) (sym (insert_payload-object_with s sender payload h))
          (payload_members-Received s sender payload small h))

  text-Received :
      (t s : MessageType.MessageType) (sender : ℕ) (text : Bytes)
      → some s ≡ some t
      → sender ≤ 2 ^ 53
      → IsBytes text
      → q.to_utf8 (q.from_utf8 text) ≡ text
      → Received t sender text
          (q.insert_string (header q (counterpart s) sender) key_s (q.from_utf8 text))
  text-Received t s sender text e small h valid =
      subst
        (λ (u : MessageType.MessageType).
          Received u sender text
            (q.insert_string (header q (counterpart s) sender) key_s (q.from_utf8 text)))
        (some_inj e)
        (subst (Received s sender text) (sym (text-object_with s sender text))
          (text_members-Received s sender text small h valid))

  frame_object-Received :
      (own sender : ℕ)
      → sender ≤ 2 ^ 53
      → (body : Body) {t : MessageType.MessageType} → upstream_type body ≡ some t
      → HasWidths own body
      → IsUtf8 q body
      → Received t sender
          (sent_payload (record { user_id = own; body = body }))
          (frame_object q (record { user_id = own; body = body }) sender)
  unfolding frame_object kind to_wire_type payload_of
  frame_object-Received own sender small (Body.send_text text) e h u =
      text-Received _ MessageType.text_send sender text e small u.0 u.1
  frame_object-Received own sender small (Body.create_meeting m d) e h u =
      payload-Received _ MessageType.create_meeting sender _ e small
        (sent-IsBytes own (Body.create_meeting m d) h u)
  frame_object-Received own sender small (Body.join_meeting r) e h u =
      payload-Received _ MessageType.join_meeting sender _ e small
        (sent-IsBytes own (Body.join_meeting r) h u)
  frame_object-Received own sender small Body.exit_meeting e h u =
      payload-Received _ MessageType.exit_meeting sender _ e small
        (sent-IsBytes own Body.exit_meeting h u)
  frame_object-Received own sender small Body.close_camera e h u =
      payload-Received _ MessageType.close_camera sender _ e small
        (sent-IsBytes own Body.close_camera h u)
  frame_object-Received own sender small (Body.send_user_profile n a) e h u =
      payload-Received _ MessageType.user_profile sender _ e small
        (sent-IsBytes own (Body.send_user_profile n a) h u)
  frame_object-Received own sender small (Body.room_settings f) e h u =
      payload-Received _ MessageType.room_settings sender _ e small
        (sent-IsBytes own (Body.room_settings f) h u)
  frame_object-Received own sender small _ e h u = cc

  -- Over a JSON library and a Qt with the documented behaviour, each finding in the texts of the
  -- other the members that were set: the frame that a client encodes for a request (creating,
  -- joining or leaving a meeting, closing the camera, a text that Qt keeps as it is, a profile
  -- that fits its widths, room settings), with a user id up to 2^53, is decoded by the server to
  -- the packet of the type of that request, with that user id and with the text, or else the
  -- payload that the client built.
  pub parse_and_decode-encode_wire_frame :
      (own sender : ℕ)
      → sender ≤ 2 ^ 53
      → (body : Body) (t : MessageType.MessageType) → upstream_type body ≡ some t
      → HasWidths own body
      → IsUtf8 q body
      → parse_and_decode j (encode_wire_frame q (record { user_id = own; body = body }) sender)
        ≡ ok (record {
          type = t;
          user_id = sender;
          payload = sent_payload (record { user_id = own; body = body });
        })
  unfolding encode_wire_frame Received
  parse_and_decode-encode_wire_frame own sender small body t e h u =
      frame_object-Received own sender small body e h u
