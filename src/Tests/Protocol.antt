-- ===== src/Tests/Protocol.antt =====
-- The wire formats and the codec.
use ccmeeting.Common.{◌≡◌, refl, inr, some, [], ◌∷◌, ◌++◌, arith, Bytes}
use ccmeeting.Base64.{base64_encode, base64_decode}
use ccmeeting.Base64.RoundTrip.{base64_decode-encode}
use ccmeeting.Wire.{write_uint32_be, read_uint32_be}
use ccmeeting.Network.Buffer.{Buffer, readable}
use ccmeeting.Network.Buffer.Content.{IsValid}
use ccmeeting.Protocol.MessageType.{join_meeting}
use ccmeeting.Protocol.Codec.{Packet, ok, need_more, encode, try_decode, consume, parse_and_decode}
use ccmeeting.Protocol.Codec.Framing.{frame, try_decode-frame, try_decode_short}
use ccmeeting.Protocol.Codec.RoundTrip.{decode-encode}
use ccmeeting.Tests.FlatJson.{or_empty, flat_json, flat_json-IsJson}

-- Two bytes, their text with its padding, and a line break in it.
base64_decode-encode_example : base64_decode (base64_encode (77 ∷ 97 ∷ [])) ≡ 77 ∷ 97 ∷ []
base64_decode-encode_example = base64_decode-encode (77 ∷ 97 ∷ []) (omega arith)

abbrev join_packet : Packet
join_packet = record { type = join_meeting; user_id = 7; payload = 0 ∷ 1 ∷ 134 ∷ 160 ∷ [] }

abbrev join_text : Bytes
join_text = or_empty (encode flat_json join_packet)

encode-join_packet : encode flat_json join_packet ≡ some join_text
unfolding encode
encode-join_packet = refl

decode-encode_example : parse_and_decode flat_json join_text ≡ ok join_packet
decode-encode_example =
    decode-encode flat_json flat_json-IsJson join_packet join_text (omega arith) (omega arith)
      encode-join_packet

-- A buffer that holds a frame of two bytes and the first byte of the next one.
abbrev two_frames : Buffer
two_frames = record {
  buffer = 9 ∷ 0 ∷ 0 ∷ 0 ∷ 2 ∷ 65 ∷ 66 ∷ 0 ∷ 0 ∷ [];
  read_pos = 1;
  write_pos = 8;
}

two_frames-IsValid : IsValid two_frames
two_frames-IsValid = record { ordered = omega arith; bounded = omega arith }

readable-two_frames : readable two_frames ≡ frame (65 ∷ 66 ∷ []) ++ (0 ∷ [])
unfolding readable write_uint32_be
readable-two_frames = refl

try_decode-frame_example :
    try_decode flat_json two_frames
    ≡ consume flat_json 6 two_frames (parse_and_decode flat_json (65 ∷ 66 ∷ []))
try_decode-frame_example =
    try_decode-frame flat_json two_frames two_frames-IsValid (65 ∷ 66 ∷ []) (0 ∷ [])
      readable-two_frames (omega arith) (omega arith)

abbrev half_frame : Buffer
half_frame = record { buffer = 0 ∷ 0 ∷ 0 ∷ 2 ∷ 65 ∷ 66 ∷ []; read_pos = 0; write_pos = 5 }

try_decode_short_example : try_decode flat_json half_frame ≡ (need_more, half_frame)
unfolding readable read_uint32_be
try_decode_short_example =
    try_decode_short flat_json half_frame (record { ordered = omega arith; bounded = omega arith })
      (inr (omega arith))
