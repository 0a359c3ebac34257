-- ===== src/Client/Codec/RoundTrip.antt =====
-- A frame that the client encodes is decoded to its type, its user and its payload.
use ccmeeting.Common.{
  ℕ, ◌^◌, ◌≤◌, ◌≡◌, refl, ap, ◌∙◌, false, none, some, [], ◌∷◌, Bytes, IsBytes, bytes_eq,
}
use ccmeeting.Client.Types.{MsgType, type_name, type_from_name}
use ccmeeting.Client.Types.Agreement.{type_from_name-type_name}
use ccmeeting.Client.Payload.{decode_payload}
use ccmeeting.Client.Qt.{Qt, IsQt}
use ccmeeting.Client.Codec.{
  Body, decode_json_frame, frame_object, key_t, key_u, key_s, key_p, header, insert_payload,
  frame_payload, decode_object,
}

module _ (q : Qt) (law : IsQt q) (type : MsgType) (user_id : ℕ) where
  abbrev base : q.Object
  base = header q type user_id

  value-base_t : q.value_string base key_t ≡ q.from_latin1 (type_name type)
  unfolding bytes_eq
  value-base_t =
      law.value_string-insert_double _ _ _ _ refl ∙ law.value_string-insert_string _ _ _ _

  value-base_u : q.value_double base key_u ≡ q.to_double user_id
  value-base_u = law.value_double-insert_double _ _ _

  contains-base_s : q.contains base key_s ≡ false
  unfolding bytes_eq
  contains-base_s =
      law.contains-insert_double _ _ _ _ ∙ law.contains-insert_string _ _ _ _ ∙ law.contains-empty _

  contains-base_p : q.contains base key_p ≡ false
  unfolding bytes_eq
  contains-base_p =
      law.contains-insert_double _ _ _ _ ∙ law.contains-insert_string _ _ _ _ ∙ law.contains-empty _

  -- One more member changes neither the type nor the user.
  pub value-insert_t :
      (k : Bytes) (s : q.Str)
      → bytes_eq k key_t ≡ false
      → q.value_string (q.insert_string base k s) key_t ≡ q.from_latin1 (type_name type)
  value-insert_t k s h = law.value_string-insert_string base k key_t s ∙ rw h value-base_t

  pub value-insert_u :
      (k : Bytes) (s : q.Str)
      → bytes_eq k key_u ≡ false
      → q.value_double (q.insert_string base k s) key_u ≡ q.to_double user_id
  value-insert_u k s h = law.value_double-insert_string base k key_u s h ∙ value-base_u

  type_from_name-latin1 :
      type_from_name (q.equals_latin1 (q.from_latin1 (type_name type))) ≡ some type
  type_from_name-latin1 =
      ap type_from_name (λ i. λ b. law.equals_latin1-from_latin1 (type_name type) b i)
      ∙ type_from_name-type_name type

  -- What the decoder reads of an object with these members and this payload.
  pub decode_object_lem :
      (o : q.Object) (payload : Bytes)
      → q.value_string o key_t ≡ q.from_latin1 (type_name type)
      → q.value_double o key_u ≡ q.to_double user_id
      → frame_payload q o ≡ payload
      → user_id ≤ 2 ^ 53
      → decode_object q o ≡ decode_payload q payload user_id type
  unfolding decode_object
  decode_object_lem o payload t u p small =
      rw (t, type_from_name-latin1, u, law.to_int64-to_double user_id small, decode_object)
        (ap (λ x. decode_payload q x user_id type) p)

  payload-base : frame_payload q base ≡ []
  unfolding frame_payload
  payload-base = rw (contains-base_s, contains-base_p) refl

  pub payload-insert_s : (s : q.Str) → frame_payload q (q.insert_string base key_s s) ≡ q.to_utf8 s
  unfolding frame_payload bytes_eq
  payload-insert_s s =
      rw
        (
          law.contains-insert_string base key_s key_s s,
          law.value_string-insert_string base key_s key_s s,
        )
        refl

  payload-insert_p :
      (s : q.Str) → frame_payload q (q.insert_string base key_p s) ≡ q.from_base64 (q.to_latin1 s)
  unfolding frame_payload bytes_eq
  payload-insert_p s =
      rw
        (
          law.contains-insert_string base key_p key_s s,
          contains-base_s,
          law.contains-insert_string base key_p key_p s,
          law.value_string-insert_string base key_p key_p s,
        )
        refl

  pub decode-insert_payload :
      (payload : Bytes)
      → user_id ≤ 2 ^ 53
      → IsBytes payload
      → decode_object q (insert_payload q base payload) ≡ decode_payload q payload user_id type
  unfolding bytes_eq
  decode-insert_payload [] small h =
      decode_object_lem base [] value-base_t value-base_u payload-base small
  decode-insert_payload (b ∷ bs) small h =
      decode_object_lem _ (b ∷ bs) (value-insert_t key_p _ refl) (value-insert_u key_p _ refl)
        (payload-insert_p _
          ∙ ap q.from_base64 (law.to_latin1-from_latin1 _ (law.to_base64-IsBytes (b ∷ bs) h))
          ∙ law.from_base64-to_base64 (b ∷ bs) h)
        small

module _ (q : Qt) (law : IsQt q) where
  -- A text to send is no message that a client receives.
  pub decode-insert_text :
      (user_id : ℕ)
      → user_id ≤ 2 ^ 53
      → (text : Bytes)
      → decode_object q
          (q.insert_string (header q MsgType.text_send user_id) key_s (q.from_utf8 text))
        ≡ none
  unfolding bytes_eq decode_payload
  decode-insert_text user_id small text =
      decode_object_lem q law MsgType.text_send user_id _ (q.to_utf8 (q.from_utf8 text))
        (value-insert_t q law MsgType.text_send user_id key_s _ refl)
        (value-insert_u q law MsgType.text_send user_id key_s _ refl)
        (payload-insert_s q law MsgType.text_send user_id (q.from_utf8 text)) small

  header-Regular : (type : MsgType) (user_id : ℕ) → law.Regular (header q type user_id)
  header-Regular type user_id =
      law.insert_double-Regular _ _ _ (law.insert_latin1-Regular _ _ _ law.empty-Regular)

  insert_payload-Regular :
      (o : q.Object) (payload : Bytes) → law.Regular o → law.Regular (insert_payload q o payload)
  insert_payload-Regular o [] h = h
  insert_payload-Regular o (b ∷ bs) h = law.insert_latin1-Regular _ _ _ h

  pub frame_object-Regular :
      (own : ℕ) (body : Body) (user_id : ℕ)
      → law.Regular (frame_object q (record { user_id = own; body = body }) user_id)
  unfolding frame_object
  frame_object-Regular own (Body.send_text text) user_id =
      law.insert_utf8-Regular _ _ _ (header-Regular _ _)
  frame_object-Regular own (Body.create_meeting m d) user_id =
      insert_payload-Regular _ _ (header-Regular _ _)
  frame_object-Regular own _ user_id = insert_payload-Regular _ _ (header-Regular _ _)

  pub decode_json_frame-to_json :
      (o : q.Object) → law.Regular o → decode_json_frame q (q.to_json o) ≡ decode_object q o
  unfolding decode_json_frame
  decode_json_frame-to_json o h =
      let read = law.from_json-to_json o h in rw (read.1, read.2, decode_json_frame) refl
