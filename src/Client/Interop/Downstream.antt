-- ===== src/Client/Interop/Downstream.antt =====
-- A client decodes what the server sends.
use ccmeeting.Common.{
  if_both, ℕ, ◌^◌, ◌≤◌, ◌≡◌, refl, sym, ap, ◌∙◌, true, false, some, [], ◌∷◌, subst, Bytes, IsBytes,
  bytes_eq,
}
use ccmeeting.Base64.{base64_encode}
use ccmeeting.Protocol.MessageType
use ccmeeting.Protocol.MessageType.{is_text_type}
use ccmeeting.Protocol.Json.{Json}
use ccmeeting.Protocol.Codec.{Packet, document_of, set_payload, encode}
use ccmeeting.Client.Types.Agreement.{counterpart, type_name-counterpart}
use ccmeeting.Client.Payload.{decode_payload}
use ccmeeting.Client.Qt.{Qt, IsQt}
use ccmeeting.Client.Codec.{
  key_t, key_u, key_s, key_p, frame_payload, decode_object, decode_json_frame,
}
use ccmeeting.Client.Codec.RoundTrip.{decode_object_lem}
use ccmeeting.Client.Interop
use ccmeeting.Client.Interop.{
  IsInterop, Holds, document_with, header_members, payload_members, text_members, payload-All,
  text-All, base64_encode_ascii, type_name_ascii, ascii-IsBytes,
}

module _ (j : Json) (q : Qt) (law : IsQt q) (inter : IsInterop j q) where
  -- What the client reads of an object that holds the members of a header and this payload.
  header_held :
      (t : MessageType.MessageType) (user_id : ℕ) (o : q.Object) (payload : Bytes)
      → user_id ≤ 2 ^ 53
      → Holds q o key_t (some (Interop.text (MessageType.type_name t)))
      → Holds q o key_u (some (Interop.number user_id))
      → frame_payload q o ≡ payload
      → decode_object q o ≡ decode_payload q payload user_id (counterpart t)
  header_held t user_id o payload small ht hu p =
      decode_object_lem q law (counterpart t) user_id o payload
        (ht.1
          ∙ ap q.from_utf8 (sym (type_name-counterpart t))
          ∙ law.from_utf8_ascii _ (type_name_ascii (counterpart t)))
        hu.1 p small

  from_base64-from_utf8 :
      (b : Bytes) → IsBytes b → q.from_base64 (q.to_latin1 (q.from_utf8 (base64_encode b))) ≡ b
  from_base64-from_utf8 b h =
      ap (λ s. q.from_base64 (q.to_latin1 s))
        (law.from_utf8_ascii (base64_encode b) (base64_encode_ascii b))
      ∙ ap q.from_base64
          (law.to_latin1-from_latin1 _ (ascii-IsBytes (base64_encode b) (base64_encode_ascii b)))
      ∙ ap q.from_base64 (sym (inter.to_base64-standard b h))
      ∙ law.from_base64-to_base64 b h

  payload_held_s :
      (o : q.Object) (payload : Bytes)
      → Holds q o key_s (some (Interop.text payload))
      → q.to_utf8 (q.from_utf8 payload) ≡ payload
      → frame_payload q o ≡ payload
  unfolding frame_payload
  payload_held_s o payload h valid = rw (h.0, h.1) valid

  payload_held_p :
      (o : q.Object) (payload : Bytes)
      → q.contains o key_s ≡ false
      → Holds q o key_p (some (Interop.text (base64_encode payload)))
      → IsBytes payload
      → frame_payload q o ≡ payload
  unfolding frame_payload
  payload_held_p o payload s h bytes = rw (s, h.0, h.1) (from_base64-from_utf8 payload bytes)

  payload_held_none :
      (o : q.Object)
      → q.contains o key_s ≡ false
      → q.contains o key_p ≡ false
      → frame_payload q o ≡ []
  unfolding frame_payload
  payload_held_none o s p = rw (s, p) refl

  -- The client decodes the dump of a document to what its payload decoder makes of the payload.
  Decoded : MessageType.MessageType → ℕ → Bytes → j.Doc → Type 0
  Decoded t user_id payload d =
      (json : Bytes)
      → j.dump d ≡ some json
      → decode_json_frame q json ≡ decode_payload q payload user_id (counterpart t)

  text-Decoded :
      (t : MessageType.MessageType) (user_id : ℕ) (payload : Bytes)
      → user_id ≤ 2 ^ 53
      → IsBytes payload
      → q.to_utf8 (q.from_utf8 payload) ≡ payload
      → Decoded t user_id payload (document_with j (text_members t user_id payload))
  unfolding Decoded decode_json_frame bytes_eq
  text-Decoded t user_id payload small h valid json e =
      let (doc, o, p, r, held) =
        inter.from_json-dump (key_s, Interop.text payload) (header_members t user_id)
          (text-All q law t user_id payload small h valid) json e in
      rw (p, r, decode_json_frame)
        (header_held t user_id o payload small (held key_t) (held key_u)
          (payload_held_s o payload (held key_s) valid))

  payload-Decoded :
      (t : MessageType.MessageType) (user_id : ℕ) (payload : Bytes)
      → user_id ≤ 2 ^ 53
      → IsBytes payload
      → Decoded t user_id payload (document_with j (payload_members t user_id payload))
  unfolding Decoded decode_json_frame bytes_eq
  payload-Decoded t user_id [] small h json e =
      let (doc, o, p, r, held) =
        inter.from_json-dump (key_u, Interop.number user_id)
          ((key_t, Interop.text (MessageType.type_name t)) ∷ [])
          (payload-All q law t user_id [] small) json e in
      rw (p, r, decode_json_frame)
        (header_held t user_id o [] small (held key_t) (held key_u)
          (payload_held_none o (held key_s) (held key_p)))
  payload-Decoded t user_id (b ∷ bs) small h json e =
      let (doc, o, p, r, held) =
        inter.from_json-dump (key_p, Interop.text (base64_encode (b ∷ bs)))
          (header_members t user_id) (payload-All q law t user_id (b ∷ bs) small) json e in
      rw (p, r, decode_json_frame)
        (header_held t user_id o (b ∷ bs) small (held key_t) (held key_u)
          (payload_held_p o (b ∷ bs) (held key_s) (held key_p) h))

  set_payload-document_with :
      (t : MessageType.MessageType) (user_id : ℕ) (payload : Bytes)
      → set_payload j (document_with j (header_members t user_id)) payload
        ≡ document_with j (payload_members t user_id payload)
  unfolding set_payload
  set_payload-document_with t user_id [] = refl
  set_payload-document_with t user_id (b ∷ bs) = refl

  document_of-Decoded :
      (t : MessageType.MessageType) (user_id : ℕ) (payload : Bytes)
      → user_id ≤ 2 ^ 53
      → IsBytes payload
      → (is_text_type t ≡ true → q.to_utf8 (q.from_utf8 payload) ≡ payload)
      → Decoded t user_id payload
          (document_of j (record { type = t; user_id = user_id; payload = payload }))
  unfolding document_of
  document_of-Decoded t user_id payload small h valid =
      if_both (Decoded t user_id payload) (is_text_type t) _ _
        (λ e. text-Decoded t user_id payload small h (valid e))
        (λ e.
          subst (Decoded t user_id payload) (sym (set_payload-document_with t user_id payload))
            (payload-Decoded t user_id payload small h))

  -- Over a JSON library and a Qt with the documented behaviour, each finding in the texts of the
  -- other the members that were set: if the server encodes a packet whose user id is at most 2^53
  -- and whose payload is bytes, and a text that Qt keeps as it is if its type is a text type, then
  -- a client decodes the text to what its payload decoder makes of that payload, of that user id
  -- and of its own enumerator of the same name.
  pub decode_json_frame-encode :
      (p : Packet) (text : Bytes)
      → p.user_id ≤ 2 ^ 53
      → IsBytes p.payload
      → (is_text_type p.type ≡ true → q.to_utf8 (q.from_utf8 p.payload) ≡ p.payload)
      → encode j p ≡ some text
      → decode_json_frame q text ≡ decode_payload q p.payload p.user_id (counterpart p.type)
  unfolding encode Decoded
  decode_json_frame-encode p text small h valid e =
      document_of-Decoded p.type p.user_id p.payload small h valid text e
