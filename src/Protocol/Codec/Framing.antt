-- ===== src/Protocol/Codec/Framing.antt =====
-- The frames between the connection and the codec: `[uint32 length][JSON]` in the read buffer.
use ccmeeting.Common.{
  ◌+◌, ◌^◌, ◌<◌, ◌≡◌, refl, sym, ap, ◌∙◌, ◌≢◌, ◌⊎◌, false, ◌++◌, append_assoc, arith, ltb, ==_ne,
  length, take, drop, length-append, take-append, drop-append, Bytes,
}
use ccmeeting.Wire.{read_uint32_be, write_uint32_be}
use ccmeeting.Wire.RoundTrip.{read-write_uint32_be, length-write_uint32_be}
use ccmeeting.Network.Buffer.{Buffer, readable, readable_size, move_read_pos}
use ccmeeting.Network.Buffer.Content.{
  IsValid, length-readable, readable-move_read_pos, move_read_pos-IsValid,
}
use ccmeeting.Protocol.Json.{Json}
use ccmeeting.Protocol.Codec.{need_more, try_decode, consume, parse_and_decode}

-- A message behind its length, as the connection's read handler puts it into the buffer.
abbrev pub frame : Bytes → Bytes
frame message = write_uint32_be (length message) ++ message

module _ (message rest : Bytes) where
  abbrev queue : Bytes
  queue = frame message ++ rest

  length-queue : length queue ≡ 4 + length message + length rest
  length-queue = omega (
    arith,
    length-append (frame message) rest,
    length-append (write_uint32_be (length message)) message,
    length-write_uint32_be (length message),
  )

  size-queue : length message < 2 ^ 32 → read_uint32_be queue ≡ length message
  size-queue h =
      rw (append_assoc (write_uint32_be (length message)) message rest)
        (read-write_uint32_be (length message) (message ++ rest) h)

  message-queue : take (length message) (drop 4 queue) ≡ message
  message-queue = rw (append_assoc (write_uint32_be (length message)) message rest) (
      ap (take (length message)) (
        drop-append 4 (write_uint32_be (length message)) (message ++ rest)
          (sym (length-write_uint32_be (length message))))
      ∙ take-append (length message) message rest refl)

  rest-queue : drop (4 + length message) queue ≡ rest
  rest-queue = drop-append (4 + length message) (frame message) rest (
      omega (
        arith,
        length-append (write_uint32_be (length message)) message,
        length-write_uint32_be (length message),
      ))

module _ (j : Json) (b : Buffer) (v : IsValid b) where
  -- If the readable bytes of a valid buffer begin with a frame of a non-empty message shorter than
  -- 2^32, try_decode decodes exactly that message, whatever follows it, and consumes the four
  -- length bytes and the message, unless decoding throws.
  pub try_decode-frame :
      (message rest : Bytes)
      → readable b ≡ frame message ++ rest
      → 0 < length message
      → length message < 2 ^ 32
      → try_decode j b ≡ consume j (4 + length message) b (parse_and_decode j message)
  unfolding try_decode
  try_decode-frame message rest e pos small =
      rw (long, size, ==_ne (length message) 0 (omega arith), whole, e)
        (rw (message-queue message rest) refl)
    where
      total : readable_size b ≡ 4 + length message + length rest
      total = sym (length-readable b v) ∙ ap length e ∙ length-queue message rest

      long : ltb (readable_size b) 4 ≡ false
      long = ground (arith, total)

      size : read_uint32_be (readable b) ≡ length message
      size = rw e (size-queue message rest small)

      whole : ltb (readable_size b) (4 + length message) ≡ false
      whole = ground (arith, total)

  -- The queue behind a decoded message.
  pub readable-consumed :
      (message rest : Bytes)
      → readable b ≡ frame message ++ rest
      → readable (move_read_pos (4 + length message) b) ≡ rest
  readable-consumed message rest e =
      readable-move_read_pos (4 + length message) b
      ∙ ap (drop (4 + length message)) e
      ∙ rest-queue message rest

  pub consumed-IsValid :
      (message rest : Bytes)
      → readable b ≡ frame message ++ rest
      → IsValid (move_read_pos (4 + length message) b)
  consumed-IsValid message rest e =
      move_read_pos-IsValid (4 + length message) b
        (omega (arith, length-readable b v, ap length e, length-queue message rest)) v

  -- If a valid buffer holds fewer than four readable bytes, or fewer than four plus the non-zero
  -- length that they begin with, try_decode reports NeedMore and leaves the buffer as it is.
  pub try_decode_short :
      (length (readable b) < 4)
        ⊎ ((read_uint32_be (readable b) ≢ 0)
            × (length (readable b) < 4 + read_uint32_be (readable b)))
      → try_decode j b ≡ (need_more, b)
  unfolding try_decode
  try_decode_short h = ground (arith, length-readable b v)
