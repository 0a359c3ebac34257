-- ===== src/Client/Codec.antt =====
-- `MessageCodec` of client/src/network/messageNet/messagecodec.cpp: the JSON frame of a message, and
-- `WireStreamParser`, which takes the bytes of the socket. Lengths are below 2^31, as an `int` holds them.
pub mod RoundTrip
pub mod Feed
pub mod Echo
use ccmeeting.Common.{
  ℕ, ◌+◌, ◌*◌, Option, none, some, List, [], ◌∷◌, ◌++◌, ltb, ◌==◌, if◌then◌else◌, length, Bytes,
  codes,
}
use ccmeeting.Client.Message.{Message, Body, kind}
use ccmeeting.Client.Types.{MsgType, type_name, type_from_name, to_wire_type}
use ccmeeting.Client.Payload.{payload_of, decode_payload}
use ccmeeting.Client.Qt.{Qt}

abbrev pub key_t : Bytes
key_t = codes "t"

abbrev pub key_u : Bytes
key_u = codes "u"

abbrev pub key_s : Bytes
key_s = codes "s"

abbrev pub key_p : Bytes
key_p = codes "p"

-- `buffer_` of `WireStreamParser` is the list of its bytes.
-- `k_max_buffer`
abbrev pub max_buffer : ℕ
max_buffer = 4 * 1024 * 1024

-- Above this length an incomplete text is dropped.
abbrev pub max_incomplete : ℕ
max_incomplete = 1024 * 1024

-- `WireStreamParser::reset`
abbrev pub reset : Bytes → Bytes
reset buffer = []

-- The overflow check of `feed`, and the append.
unfoldable pub append_bounded : Bytes → Bytes → Bytes
append_bounded buffer bytes =
    if ltb max_buffer (length buffer + length bytes) then bytes else buffer ++ bytes

module _ (q : Qt) where
  -- `if (!payload.isEmpty())`
  abbrev pub insert_payload : q.Object → Bytes → q.Object
  insert_payload object [] = object
  insert_payload object (b ∷ bs) =
      q.insert_string object key_p (q.from_latin1 (q.to_base64 (b ∷ bs)))

  -- The members that every frame has.
  abbrev pub header : MsgType → ℕ → q.Object
  header type local_user_id =
      q.insert_double (q.insert_string q.empty_object key_t (q.from_latin1 (type_name type))) key_u
        (q.to_double local_user_id)

  -- The object that `encode_wire_frame` builds.
  unfoldable pub frame_object : Message → ℕ → q.Object
  frame_object msg local_user_id =
      let object = header (to_wire_type (kind msg.body)) local_user_id in
      elim msg.body [
        | Body.send_text text ↦ q.insert_string object key_s (q.from_utf8 text)
        | _ ↦ insert_payload object (payload_of msg)
      ]

  -- `MessageCodec::encode_wire_frame`
  unfoldable pub encode_wire_frame : Message → ℕ → Bytes
  unfolding frame_object
  encode_wire_frame msg local_user_id = q.to_json (frame_object msg local_user_id)

  -- The payload of a frame: `s` as UTF-8, else `p` from Base64, else nothing.
  unfoldable pub frame_payload : q.Object → Bytes
  frame_payload object =
      if q.contains object key_s
      then q.to_utf8 (q.value_string object key_s)
      else if q.contains object key_p
      then q.from_base64 (q.to_latin1 (q.value_string object key_p))
      else []

  -- `decode_json_frame` from the object on.
  unfoldable pub decode_object : q.Object → Option Message
  unfolding frame_payload
  decode_object object = elim (type_from_name (q.equals_latin1 (q.value_string object key_t))) [
    | none ↦ none
    | some type ↦
        decode_payload q (frame_payload object) (q.to_int64 (q.value_double object key_u)) type
  ]

  abbrev pub decode_document : Option q.Object → Option Message
  decode_document none = none
  decode_document (some object) = decode_object object

  -- `MessageCodec::decode_json_frame`
  unfoldable pub decode_json_frame : Bytes → Option Message
  decode_json_frame json_frame = elim (q.from_json json_frame) [
    | none ↦ none
    | some doc ↦ decode_document (q.object doc)
  ]

  abbrev pub one_or_none : Option Message → List Message
  one_or_none none = []
  one_or_none (some msg) = msg ∷ []

  -- `if (doc.isObject())`
  abbrev pub parsed : Bytes → Option q.Object → List Message
  parsed frame none = []
  parsed frame (some object) = one_or_none (decode_json_frame frame)

  -- `feed` behind the append: the messages and what is left in the buffer. An empty frame is kept.
  unfoldable pub take_frame : Bytes → Bytes → List Message × Bytes
  take_frame [] buffer = ([], buffer)
  take_frame (c ∷ text) buffer =
      if c == b'{'
      then elim (q.from_json (c ∷ text)) [
        | none ↦ ([], if ltb max_incomplete (length buffer) then [] else buffer)
        | some doc ↦ (parsed (c ∷ text) (q.object doc), [])
      ]
      else ([], [])

  -- `WireStreamParser::feed`
  unfoldable pub feed : Bytes → Bytes → List Message × Bytes
  unfolding append_bounded take_frame
  feed bytes buffer =
      if length bytes == 0
      then ([], buffer)
      else take_frame (q.trimmed (append_bounded buffer bytes)) (append_bounded buffer bytes)
