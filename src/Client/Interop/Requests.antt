-- ===== src/Client/Interop/Requests.antt =====
-- What the server makes of the payloads of a client's requests, and of the room number that is typed.
use ccmeeting.Common.{
  ltb→lt, ℕ, suc, ◌+◌, ◌-◌, ◌*◌, ◌%◌, ◌^◌, ◌<◌, ◌≡◌, refl, sym, ap, ◌∙◌, inl, inr, true, false,
  ◌&&◌, none, some, List, [], ◌∷◌, append-nil, arith, ltb, leb, ◌==◌, if◌then◌else◌, ==_ne,
  Bool-cases, length, All, length-append, drop-append, Bytes,
}
use ccmeeting.Wire.{read_uint32_be, write_uint32_be}
use ccmeeting.Wire.RoundTrip.{read-write_uint32_be, length-write_uint32_be}
use ccmeeting.Meeting.Room.{ServerConfig}
use ccmeeting.Meeting.Service.{parse_create_meeting_options, clamp}
use ccmeeting.Client.Message.{is_space, is_digit, or_zero, Body, digits, stoul, room_no_u32}
use ccmeeting.Client.Payload.{payload_of}

-- The options that the client sends with a request for a room are read back by the server, each cut
-- to its bounds.
pub parse_create_meeting_options-payload_of :
    (own max_participants duration_minutes : ℕ) (config : ServerConfig)
    → max_participants < 2 ^ 32
    → duration_minutes < 2 ^ 32
    → parse_create_meeting_options
        (payload_of
          (record { user_id = own; body = Body.create_meeting max_participants duration_minutes }))
        config
      ≡ record {
        max_participants = clamp max_participants 2 (config.max_participants_per_room % 2 ^ 32);
        duration_minutes = clamp duration_minutes 1 (24 * 60);
      }
unfolding parse_create_meeting_options payload_of
parse_create_meeting_options-payload_of own m d config hm hd =
    rw
      (
        length-append (write_uint32_be m) (write_uint32_be d),
        length-write_uint32_be m,
        length-write_uint32_be d,
        read-write_uint32_be m (write_uint32_be d) hm,
        drop-append 4 (write_uint32_be m) (write_uint32_be d) (sym (length-write_uint32_be m)),
        second,
        same,
      )
      refl
  where
    second : read_uint32_be (write_uint32_be d) ≡ d
    second = ap read_uint32_be (sym (append-nil (write_uint32_be d))) ∙ read-write_uint32_be d [] hd

    same : m % 2 ^ 32 ≡ m
    same = omega arith

-- The number that a list of decimal digits denotes, behind `value`.
abbrev pub denoted : ℕ → List ℕ → ℕ
denoted value [] = value
denoted value (d ∷ ds) = denoted (value * 10 + d) ds

abbrev pub IsDigit : ℕ → Type 0
IsDigit d = d < 10

-- The digits as characters.
abbrev pub typed : List ℕ → Bytes
typed [] = []
typed (d ∷ ds) = (48 + d) ∷ typed ds

digits-typed :
    (value : ℕ) (ds : List ℕ) → All IsDigit ds → digits value (typed ds) ≡ denoted value ds
unfolding digits
digits-typed value [] h = refl
digits-typed value (d ∷ ds) h =
    let e : 48 + d - 48 ≡ d = omega arith in rw (digit, e) (digits-typed (value * 10 + d) ds h.1)
  where
    digit : (leb 48 (48 + d) && leb (48 + d) 57) ≡ true
    digit = ground (arith, h.0)

in_range :
    (v : ℕ) → or_zero (if leb (2 ^ 32) v then none else some v) ≡ (if ltb v (2 ^ 32) then v else 0)
in_range v = elim (Bool-cases (leb (2 ^ 32) v)) [
  | inl e ↦ let f : ltb v (2 ^ 32) ≡ false = ground (arith, e) in rw (e, f) refl
  | inr e ↦
      let f : ltb v (2 ^ 32) ≡ true = ground (arith, e) in
      rw (e, f) (omega (arith, ltb→lt v (2 ^ 32) f))
]

-- For a text of one or more decimal digits room_no_u32 is the number that they denote, or 0 if it
-- is 2^32 or more, where unsigned long has 32 bits.
pub room_no_u32-typed :
    (d : ℕ) (ds : List ℕ)
    → All IsDigit (d ∷ ds)
    → room_no_u32 (typed (d ∷ ds))
      ≡ (if ltb (denoted 0 (d ∷ ds)) (2 ^ 32) then denoted 0 (d ∷ ds) else 0)
unfolding room_no_u32 stoul
room_no_u32-typed d ds h =
    rw (some_text, space, minus, plus, digit, digits-typed 0 (d ∷ ds) h)
      (in_range (denoted 0 (d ∷ ds)))
  where
    some_text : (suc (length (typed ds)) == 0) ≡ false
    some_text = ==_ne (suc (length (typed ds))) 0 (λ e. omega arith)

    space : is_space (48 + d) ≡ false
    space = ground (arith, h.0)

    minus : ((48 + d) == 45) ≡ false
    minus = ground (arith, h.0)

    plus : ((48 + d) == 43) ≡ false
    plus = ground (arith, h.0)

    digit : is_digit (48 + d) ≡ true
    digit = ground (arith, h.0)
