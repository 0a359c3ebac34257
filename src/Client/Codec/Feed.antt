-- ===== src/Client/Codec/Feed.antt =====
-- `WireStreamParser`: one frame gives one message, and the buffer is bounded.
use ccmeeting.Common.{
  ==_ne, false, true, ℕ, ◌+◌, ◌^◌, ◌≤◌, ◌≡◌, refl, ap, ◌∙◌, inl, inr, Option, none, some, List, [],
  ◌∷◌, arith, ltb, ◌==◌, Bool-cases, Option-cases, length, length-append, Bytes,
}
use ccmeeting.Client.Message.{Body}
use ccmeeting.Client.Qt.{Qt, IsQt}
use ccmeeting.Client.Codec.{
  Message, max_buffer, max_incomplete, append_bounded, encode_wire_frame, decode_json_frame,
  one_or_none, parsed, take_frame, feed,
}
use ccmeeting.Client.Codec.RoundTrip.{frame_object-Regular}
use ccmeeting.Client.Codec.Echo.{HasWidths, received, decode-encode_wire_frame}

length-append_bounded :
    (buffer bytes : Bytes)
    → length bytes ≤ max_buffer
    → length (append_bounded buffer bytes) ≤ max_buffer
unfolding append_bounded
length-append_bounded buffer bytes h =
    elim (Bool-cases (ltb max_buffer (length buffer + length bytes))) [
      | inl e ↦ rw e h
      | inr e ↦ rw e (ground (arith, length-append buffer bytes, e))
    ]

module _ (q : Qt) where
  one_or_none-le : (m : Option Message) → length (one_or_none q m) ≤ 1
  one_or_none-le none = omega arith
  one_or_none-le (some m) = omega arith

  parsed-le : (frame : Bytes) (o : Option q.Object) → length (parsed q frame o) ≤ 1
  parsed-le frame none = omega arith
  parsed-le frame (some o) = one_or_none-le (decode_json_frame q frame)

  -- One message at most, and no more bytes kept than there were.
  abbrev pub IsModest : Bytes → List Message × Bytes → Type 0
  IsModest buffer (messages, rest) = (length messages ≤ 1) × (length rest ≤ length buffer)

  take_frame-IsModest : (text buffer : Bytes) → IsModest buffer (take_frame q text buffer)
  unfolding take_frame
  take_frame-IsModest [] buffer = (omega arith, omega arith)
  take_frame-IsModest (c ∷ text) buffer = elim (Bool-cases (c == b'{')) [
    | inr e ↦ rw (e, take_frame) (omega arith, omega arith)
    | inl e ↦ elim (Option-cases (q.from_json (c ∷ text))) [
      | inl f ↦
          rw (e, f, take_frame)
            (elim (Bool-cases (ltb max_incomplete (length buffer))) [
              | inl g ↦ rw g (omega arith, omega arith)
              | inr g ↦ rw g (omega arith, omega arith)
            ])
      | inr (doc, f) ↦ rw (e, f, take_frame) (parsed-le (c ∷ text) (q.object doc), omega arith)
    ]
  ]

  -- If at most 4 MiB are fed to a parser that holds at most 4 MiB, it returns at most one message
  -- and holds at most 4 MiB again, whatever the bytes are.
  pub feed-bounded :
      (bytes buffer : Bytes)
      → length bytes ≤ max_buffer
      → length buffer ≤ max_buffer
      → (length (feed q bytes buffer).0 ≤ 1) × (length (feed q bytes buffer).1 ≤ max_buffer)
  unfolding feed
  feed-bounded bytes buffer h v = elim (Bool-cases (length bytes == 0)) [
    | inl e ↦ rw (e, feed) (omega arith, v)
    | inr e ↦
        let m =
          take_frame-IsModest (q.trimmed (append_bounded buffer bytes))
            (append_bounded buffer bytes) in
        rw (e, feed) (m.0, omega (arith, m.1, length-append_bounded buffer bytes h))
  ]

head_test : (c d : ℕ) (s t : Bytes) → c ∷ s ≡ d ∷ t → (c == d) ≡ true
head_test c d s t e = ground arith

module _ (q : Qt) (law : IsQt q) where
  take_frame-object :
      (text rest buffer : Bytes) (doc : q.Document) (o : q.Object)
      → text ≡ b'{' ∷ rest
      → q.from_json text ≡ some doc
      → q.object doc ≡ some o
      → take_frame q text buffer ≡ (one_or_none q (decode_json_frame q text), [])
  unfolding take_frame
  take_frame-object [] rest buffer doc o brace e f = cc
  take_frame-object (c ∷ text) rest buffer doc o brace e f =
      rw (head_test c b'{' text rest brace, e, f, take_frame) refl

  appended : (bytes : Bytes) → append_bounded [] bytes ≡ bytes
  unfolding append_bounded
  appended bytes = elim (Bool-cases (ltb max_buffer (0 + length bytes))) [
    | inl e ↦ rw e refl
    | inr e ↦ rw e refl
  ]

  feed-to_json :
      (o : q.Object)
      → law.Regular o
      → feed q (q.to_json o) [] ≡ (one_or_none q (decode_json_frame q (q.to_json o)), [])
  unfolding feed
  feed-to_json o h =
      rw (some_bytes, appended (q.to_json o), law.trimmed-to_json o, feed)
        (take_frame-object (q.to_json o) _ (q.to_json o) _ o (law.to_json_brace o).1
          (law.from_json-to_json o h).1 (law.from_json-to_json o h).2)
    where
      some_bytes : (length (q.to_json o) == 0) ≡ false
      some_bytes =
          ==_ne (length (q.to_json o)) 0 (λ e. omega (arith, e, ap length (law.to_json_brace o).1))

  -- Over a Qt with the documented behaviour, feeding a whole encoded frame to a parser with an
  -- empty buffer gives exactly the message that the frame is to arrive as, if there is one, and
  -- leaves the buffer empty; the user id is at most 2^53 and the values fit their widths.
  pub feed-encode_wire_frame :
      (own sender : ℕ)
      → sender ≤ 2 ^ 53
      → (body : Body) → HasWidths own body
      → feed q (encode_wire_frame q (record { user_id = own; body = body }) sender) []
        ≡ (one_or_none q (received q own sender body), [])
  unfolding encode_wire_frame
  feed-encode_wire_frame own sender small body h =
      feed-to_json _ (frame_object-Regular q law own body sender)
      ∙ ap (λ m. (one_or_none q m, [])) (decode-encode_wire_frame q law own sender small body h)
