-- ===== src/Protocol/Codec.antt =====
-- `Codec::try_decode` and `Codec::encode` of message_server/src/protocol/codec.cpp.
pub mod Framing
pub mod RoundTrip
use ccmeeting.Common.{
  none, drop, take, ◌+◌, ◌==◌, [], ltb, some, ℕ, Option, ◌∷◌, codes, if◌then◌else◌, Bytes,
}
use ccmeeting.Wire.{read_uint32_be}
use ccmeeting.Base64.{base64_encode, base64_decode}
use ccmeeting.Network.Buffer.{Buffer, readable, readable_size, move_read_pos}
use ccmeeting.Protocol.MessageType.{MessageType, type_name, type_from_name, is_text_type}
use ccmeeting.Protocol.Json.{Json}

pub record Packet : Type 0 where
  pub type : MessageType
  pub user_id : ℕ
  pub payload : Bytes

-- `DecodeStatus`, the decoded packet beside `Ok`; `throws` is an exception that leaves the function.
pub data Decode : Type 0 where
  need_more invalid throws : Decode
  ok : Packet → Decode

-- `kLengthPrefixSize`
abbrev pub length_prefix_size : ℕ
length_prefix_size = 4

-- A call of the library that throws ends the function.
abbrev or_throw {ℓ} : {A : Type ℓ} → Option A → (A → Decode) → Decode
or_throw none k = throws
or_throw (some a) k = k a

abbrev pub key_t : Bytes
key_t = codes "t"

abbrev pub key_u : Bytes
key_u = codes "u"

abbrev pub key_s : Bytes
key_s = codes "s"

abbrev pub key_p : Bytes
key_p = codes "p"

module _ (j : Json) where
  -- The payload: `s` as it is, else `p` from base64, else nothing.
  pub decode_payload : j.Doc → (Bytes → Decode) → Decode
  decode_payload document k =
      if j.contains document key_s
      then or_throw (j.value_string document key_s []) k
      else if j.contains document key_p
      then or_throw (j.value_string document key_p []) (λ text. k (base64_decode text))
      else k []

  -- Behind the lookup of the type's name.
  decode_typed : j.Doc → Option MessageType → Decode
  decode_typed document none = invalid
  decode_typed document (some type) = or_throw (j.value_double document key_u j.zero_double) λ u.
      decode_payload document
        λ payload. ok (record { type = type; user_id = j.to_uint64 u; payload = payload })

  -- From the parsed document on.
  unfoldable pub decode_document : j.Doc → Decode
  unfolding decode_typed decode_payload
  decode_document document =
      or_throw (j.value_string document key_t (codes "unknown"))
        λ type_text. decode_typed document (type_from_name type_text)

  -- The bytes of the message are consumed, unless an exception leaves the function.
  abbrev pub consume : ℕ → Buffer → Decode → Decode × Buffer
  consume n buffer throws = (throws, buffer)
  consume n buffer d = (d, move_read_pos n buffer)

  abbrev pub parse_and_decode : Bytes → Decode
  parse_and_decode text = elim (j.parse text) [ none ↦ invalid | some d ↦ decode_document d ]

  unfoldable pub try_decode : Buffer → Decode × Buffer
  try_decode buffer =
      if ltb (readable_size buffer) length_prefix_size
      then (need_more, buffer)
      else (let json_size = read_uint32_be (readable buffer) in
          if json_size == 0
          then (invalid, buffer)
          else if ltb (readable_size buffer) (length_prefix_size + json_size)
          then (need_more, buffer)
          else consume (length_prefix_size + json_size) buffer
              (parse_and_decode (take json_size (drop length_prefix_size (readable buffer)))))

  -- `else if (!packet.payload.empty())`
  unfoldable pub set_payload : j.Doc → Bytes → j.Doc
  set_payload document [] = document
  set_payload document (b ∷ bs) = j.set_string document key_p (base64_encode (b ∷ bs))

  -- The document that `encode` builds.
  unfoldable pub document_of : Packet → j.Doc
  unfolding set_payload
  document_of packet =
      let document =
        j.set_double (j.set_string j.null key_t (type_name packet.type)) key_u
          (j.to_double packet.user_id) in
      if is_text_type packet.type
      then j.set_string document key_s packet.payload
      else set_payload document packet.payload

  -- `none`: `dump` throws.
  unfoldable pub encode : Packet → Option Bytes
  unfolding document_of
  encode packet = j.dump (document_of packet)
