-- ===== src/Protocol/Codec/RoundTrip.antt =====
-- A packet that is encoded is decoded to itself.
use ccmeeting.Common.{
  inr, inl, Bool-cases, ◌∷◌, ℕ, ◌^◌, ◌≤◌, ◌≡◌, refl, ◌∙◌, true, false, some, [], Bytes, IsBytes,
  codes, bytes_eq,
}
use ccmeeting.Base64.{base64_encode}
use ccmeeting.Base64.RoundTrip.{base64_decode-encode}
use ccmeeting.Protocol.MessageType.{MessageType, type_name}
use ccmeeting.Protocol.MessageType.Names.{type_from_name-type_name}
use ccmeeting.Protocol.Json.{Json, IsJson}
use ccmeeting.Protocol.Codec.{
  set_payload, is_text_type, parse_and_decode, Packet, document_of, encode, Decode, ok,
  decode_payload, decode_document, key_t, key_u, key_s, key_p,
}

module _ (j : Json) (law : IsJson j) (type : MessageType) (user_id : ℕ) where
  -- The members that every document has.
  abbrev pub base : j.Doc
  base = j.set_double (j.set_string j.null key_t (type_name type)) key_u (j.to_double user_id)

  contains-base_t : j.contains base key_t ≡ true
  unfolding bytes_eq
  contains-base_t = law.contains-set_double _ _ _ _ ∙ law.contains-set_string _ _ _ _

  contains-base_u : j.contains base key_u ≡ true
  unfolding bytes_eq
  contains-base_u = law.contains-set_double _ _ _ _

  contains-base_s : j.contains base key_s ≡ false
  unfolding bytes_eq
  contains-base_s =
      law.contains-set_double _ _ _ _ ∙ law.contains-set_string _ _ _ _ ∙ law.contains-null _

  contains-base_p : j.contains base key_p ≡ false
  unfolding bytes_eq
  contains-base_p =
      law.contains-set_double _ _ _ _ ∙ law.contains-set_string _ _ _ _ ∙ law.contains-null _

  value-base_t : (default : Bytes) → j.value_string base key_t default ≡ some (type_name type)
  unfolding bytes_eq
  value-base_t default =
      law.value_string-set_double _ _ _ _ _ refl (law.contains-set_string _ _ _ _)
      ∙ law.value-set_string _ _ _ _

  value-base_u :
      (default : j.Double) → j.value_double base key_u default ≡ some (j.to_double user_id)
  value-base_u default = law.value-set_double _ _ _ _

  -- What the decoder reads of a document that has these members and its payload.
  pub decode_document_lem :
      (d : j.Doc) (payload : Bytes)
      → j.value_string d key_t (codes "unknown") ≡ some (type_name type)
      → j.value_double d key_u j.zero_double ≡ some (j.to_double user_id)
      → ((k : Bytes → Decode) → decode_payload j d k ≡ k payload)
      → user_id ≤ 2 ^ 53
      → decode_document j d ≡ ok (record { type = type; user_id = user_id; payload = payload })
  unfolding decode_document
  decode_document_lem d payload t u p small =
      rw
        (
          t,
          type_from_name-type_name type,
          u,
          p,
          law.to_uint64-to_double user_id small,
          decode_document,
        )
        refl

  -- The three ways to a payload, by what the document says of the keys.
  pub decode_payload_s :
      (d : j.Doc) (payload : Bytes) (k : Bytes → Decode)
      → j.contains d key_s ≡ true
      → j.value_string d key_s [] ≡ some payload
      → decode_payload j d k ≡ k payload
  unfolding decode_payload
  decode_payload_s d payload k c v = rw (c, v) refl

  pub decode_payload_p :
      (d : j.Doc) (payload : Bytes) (k : Bytes → Decode)
      → j.contains d key_s ≡ false
      → j.contains d key_p ≡ true
      → j.value_string d key_p [] ≡ some (base64_encode payload)
      → IsBytes payload
      → decode_payload j d k ≡ k payload
  unfolding decode_payload
  decode_payload_p d payload k s p v h = rw (s, p, v, base64_decode-encode payload h) refl

  pub decode_payload_none :
      (d : j.Doc) (k : Bytes → Decode)
      → j.contains d key_s ≡ false
      → j.contains d key_p ≡ false
      → decode_payload j d k ≡ k []
  unfolding decode_payload
  decode_payload_none d k s p = rw (s, p) refl

  decode_s :
      (payload : Bytes) (k : Bytes → Decode)
      → decode_payload j (j.set_string base key_s payload) k ≡ k payload
  unfolding bytes_eq
  decode_s payload k =
      decode_payload_s _ payload k (law.contains-set_string base key_s key_s payload)
        (law.value-set_string base key_s payload [])

  decode_p :
      (payload : Bytes) (k : Bytes → Decode)
      → IsBytes payload
      → decode_payload j (j.set_string base key_p (base64_encode payload)) k ≡ k payload
  unfolding bytes_eq
  decode_p payload k h =
      decode_payload_p _ payload k
        (law.contains-set_string base key_p key_s (base64_encode payload) ∙ contains-base_s)
        (law.contains-set_string base key_p key_p (base64_encode payload))
        (law.value-set_string base key_p (base64_encode payload) []) h

  decode_nothing : (k : Bytes → Decode) → decode_payload j base k ≡ k []
  decode_nothing k = decode_payload_none base k contains-base_s contains-base_p

  -- One more member on top of the base changes neither the type nor the user.
  module _ (key value : Bytes) (not_t : bytes_eq key key_t ≡ false)
      (not_u : bytes_eq key key_u ≡ false) where
    value-set_t :
        j.value_string (j.set_string base key value) key_t (codes "unknown") ≡ some (type_name type)
    value-set_t = law.value_string-set_string _ _ _ _ _ not_t contains-base_t ∙ value-base_t _

    value-set_u :
        j.value_double (j.set_string base key value) key_u j.zero_double
        ≡ some (j.to_double user_id)
    value-set_u = law.value_double-set_string _ _ _ _ _ not_u contains-base_u ∙ value-base_u _

  pub decode-document_of :
      (payload : Bytes)
      → user_id ≤ 2 ^ 53
      → IsBytes payload
      → decode_document j
          (document_of j (record { type = type; user_id = user_id; payload = payload }))
        ≡ ok (record { type = type; user_id = user_id; payload = payload })
  unfolding document_of bytes_eq
  decode-document_of payload small bytes = elim (Bool-cases (is_text_type type)) [
    | inl text ↦
        rw (text, document_of)
          (decode_document_lem _ payload (value-set_t key_s payload refl refl)
            (value-set_u key_s payload refl refl) (decode_s payload) small)
    | inr other ↦ rw (other, document_of) (split payload bytes)
  ]
    where
      split :
          (payload : Bytes)
          → IsBytes payload
          → decode_document j (set_payload j base payload)
            ≡ ok (record { type = type; user_id = user_id; payload = payload })
      split [] h =
          decode_document_lem base [] (value-base_t _) (value-base_u _) decode_nothing small
      split (b ∷ bs) h =
          decode_document_lem _ (b ∷ bs) (value-set_t key_p _ refl refl)
            (value-set_u key_p _ refl refl) (λ k. decode_p (b ∷ bs) k h) small

-- Over a JSON library with the documented behaviour, a packet whose user id is at most 2^53, whose
-- payload is a list of bytes and which encode turns into a text is what decoding that text gives:
-- its type, its user id and its payload, for text types and for the others.
pub decode-encode :
    (j : Json) (law : IsJson j) (p : Packet) (text : Bytes)
    → p.user_id ≤ 2 ^ 53
    → IsBytes p.payload
    → encode j p ≡ some text
    → parse_and_decode j text ≡ ok p
unfolding encode
decode-encode j law p text small bytes e =
    rw (law.parse-dump (document_of j p) text e, parse_and_decode)
      (decode-document_of j law p.type p.user_id p.payload small bytes)
