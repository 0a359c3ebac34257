-- ===== src/Client/Payload/RoundTrip.antt =====
-- The client decodes the payloads that it and the server encode.
use ccmeeting.Common.{
  ℕ, zero, suc, ◌+◌, ◌%◌, ◌^◌, ◌≤◌, ◌<◌, ◌≡◌, refl, sym, ap, ◌∙◌, inl, inr, true, false, some, List,
  [], ◌∷◌, ◌++◌, append-nil, arith, ltb, leb, ◌==◌, if◌then◌else◌, Bool-cases, length, All,
  length-append, take-append, drop-append, take_all, All-append, Bytes, IsByte, IsBytes,
}
use ccmeeting.Common.Table.{Table}
use ccmeeting.Wire.{read_uint32_be, write_uint32_be, write_be64}
use ccmeeting.Wire.RoundTrip.{
  write_uint16_be-IsBytes, write_be64-IsBytes, read-write_uint32_be, read-write_be64,
  length-write_uint32_be, length-write_be64,
}
use ccmeeting.Meeting.Room.{Participant, make_user_profile_packet}
use ccmeeting.Meeting.Room.Profile.{
  IsEncodable, profile, length-profile, read_name_len, drop_name_len, read_avatar_len,
  drop_avatar_len,
}
use ccmeeting.Meeting.Relay.{partner_ids}
use ccmeeting.Protocol.Json.{Json}
use ccmeeting.Client.Message.{Body}
use ccmeeting.Client.Qt.{Qt}
use ccmeeting.Client.Payload.{
  write_uint16_be, encode_user_profile_payload, message_of, read_or_zero, partner_ids_loop,
  decode_partner_join2, encode_partner_ids, text_field, decode_avatar, decode_user_profile,
}

pub read_or_zero-write : (n : ℕ) → n < 2 ^ 32 → read_or_zero (write_uint32_be n) ≡ n
read_or_zero-write n h =
    rw (length-write_uint32_be n)
      (ap read_uint32_be (sym (append-nil (write_uint32_be n))) ∙ read-write_uint32_be n [] h)

partner_ids_loop-encode :
    (ids : List ℕ) (n : ℕ)
    → All (λ id. id < 2 ^ 64) ids
    → length ids ≤ n
    → partner_ids_loop n (encode_partner_ids ids) ≡ ids
unfolding partner_ids_loop encode_partner_ids
partner_ids_loop-encode [] zero h le = refl
partner_ids_loop-encode [] (suc n) h le = refl
partner_ids_loop-encode (id ∷ ids) zero h le = absurd (omega arith)
partner_ids_loop-encode (id ∷ ids) (suc n) h le =
    rw
      (
        long,
        read-write_be64 id (encode_partner_ids ids) h.0,
        drop-append 8 (write_be64 id) (encode_partner_ids ids) (sym (length-write_be64 id)),
        partner_ids_loop-encode ids n h.1 (omega arith),
      )
      refl
  where
    long : leb 8 (length (write_be64 id ++ encode_partner_ids ids)) ≡ true
    long =
        ground (arith, length-append (write_be64 id) (encode_partner_ids ids), length-write_be64 id)

length-encode_partner_ids : (ids : List ℕ) → length ids ≤ length (encode_partner_ids ids)
unfolding encode_partner_ids
length-encode_partner_ids [] = omega arith
length-encode_partner_ids (id ∷ ids) = omega (
  arith,
  length-append (write_be64 id) (encode_partner_ids ids),
  length-write_be64 id,
  length-encode_partner_ids ids,
)

pub decode-encode_partner_ids :
    (ids : List ℕ)
    → All (λ id. id < 2 ^ 64) ids
    → decode_partner_join2 (encode_partner_ids ids) ≡ message_of (Body.partner_join2 ids)
unfolding decode_partner_join2
decode-encode_partner_ids ids h =
    ap (λ l. message_of (Body.partner_join2 l))
      (partner_ids_loop-encode ids (length (encode_partner_ids ids)) h
        (length-encode_partner_ids ids))

-- The user ids of the participants other than the newcomer.
abbrev pub others : ℕ → Table Participant → List ℕ
others newcomer [] = []
others newcomer ((c, p) ∷ rest) =
    let ids = others newcomer rest in if c == newcomer then ids else p.user_id ∷ ids

partner_ids-others :
    (j : Json) (newcomer : ℕ) (t : Table Participant)
    → partner_ids j newcomer t ≡ encode_partner_ids (others newcomer t)
unfolding partner_ids encode_partner_ids
partner_ids-others j newcomer [] = refl
partner_ids-others j newcomer ((c, p) ∷ t) = elim (Bool-cases (c == newcomer)) [
  | inl e ↦ rw (e, partner_ids) (partner_ids-others j newcomer t)
  | inr e ↦
      rw (e, partner_ids) (ap (λ b. write_be64 p.user_id ++ b) (partner_ids-others j newcomer t))
]

others-All :
    (newcomer : ℕ) (t : Table Participant)
    → All (λ e. e.1.user_id < 2 ^ 64) t
    → All (λ id. id < 2 ^ 64) (others newcomer t)
others-All newcomer [] h = tt
others-All newcomer ((c, p) ∷ t) h = elim (Bool-cases (c == newcomer)) [
  | inl e ↦ rw (e, others) (others-All newcomer t h.1)
  | inr e ↦ rw (e, others) (h.0, others-All newcomer t h.1)
]

-- The client reads from the list a server sends to a newcomer the other participants' identifiers,
-- in the order of the table.
pub decode_partner_join2-partner_ids :
    (j : Json) (newcomer : ℕ) (participants : Table Participant)
    → All (λ e. e.1.user_id < 2 ^ 64) participants
    → decode_partner_join2 (partner_ids j newcomer participants)
      ≡ message_of (Body.partner_join2 (others newcomer participants))
decode_partner_join2-partner_ids j newcomer participants h =
    rw (partner_ids-others j newcomer participants) (
      decode-encode_partner_ids (others newcomer participants) (others-All newcomer participants h))

module _ (q : Qt) (p : Participant) (v : IsEncodable p) where
  decode_avatar-profile :
      (user_id : ℕ) (name : Bytes)
      → decode_avatar q (10 + length p.display_name) (profile p p v) user_id name
        ≡ some (record {
          user_id = user_id;
          body = Body.user_profile_notify (text_field q name) (text_field q p.avatar_url);
        })
  unfolding decode_avatar
  decode_avatar-profile user_id name =
      rw
        (
          read_avatar_len p p v,
          room,
          drop_avatar_len p p v,
          take_all (length p.avatar_url) p.avatar_url (omega arith),
        )
        refl
    where
      room :
          ltb (length (profile p p v)) (10 + length p.display_name + 2 + length p.avatar_url)
          ≡ false
      room = ground (arith, length-profile p p v)

  -- The client reads a profile that a server packed, and prefers the sender of the packet, when there
  -- is one, to the identifier inside it.
  pub decode-make_user_profile_packet :
      (sender : ℕ)
      → decode_user_profile q (make_user_profile_packet p).payload sender
        ≡ some (record {
          user_id = if sender == 0 then p.user_id else sender;
          body = Body.user_profile_notify (text_field q p.display_name) (text_field q p.avatar_url);
        })
  unfolding make_user_profile_packet decode_user_profile
  decode-make_user_profile_packet sender =
      rw
        (
          long,
          read_name_len p p v,
          name_room,
          drop_name_len p p v,
          take-append (length p.display_name) p.display_name _ refl,
          read-write_be64 p.user_id _ v.id_fits,
          decode_avatar-profile,
        )
        refl
    where
      long : ltb (length (profile p p v)) 12 ≡ false
      long = ground (arith, length-profile p p v)

      name_room : ltb (length (profile p p v)) (10 + length p.display_name + 2) ≡ false
      name_room = ground (arith, length-profile p p v)

-- A name and an avatar that fit a profile payload, for a user id of 64 bits.
pub record ProfileFits (user_id : ℕ) (name avatar : Bytes) : Type 0 where
  pub id_fits : user_id < 2 ^ 64
  pub name_fits : length name < 2 ^ 16
  pub avatar_fits : length avatar < 2 ^ 16
  pub name_bytes : IsBytes name
  pub avatar_bytes : IsBytes avatar

module _ (user_id : ℕ) (name avatar : Bytes) (v : ProfileFits user_id name avatar) where
  abbrev entry : Participant
  entry = record {
    connection = 0;
    user_id = user_id;
    is_owner = false;
    display_name = name;
    avatar_url = avatar;
  }

  pub decode-encode_user_profile_payload :
      (q : Qt) (sender : ℕ)
      → decode_user_profile q (encode_user_profile_payload user_id name avatar) sender
        ≡ some (record {
          user_id = if sender == 0 then user_id else sender;
          body = Body.user_profile_notify (text_field q name) (text_field q avatar);
        })
  unfolding encode_user_profile_payload make_user_profile_packet
  decode-encode_user_profile_payload q sender =
      decode-make_user_profile_packet q entry
        (record { id_fits = v.id_fits; name_fits = v.name_fits; avatar_fits = v.avatar_fits })
        sender

  pub encode_user_profile_payload-IsBytes :
      IsBytes (encode_user_profile_payload user_id name avatar)
  unfolding encode_user_profile_payload
  encode_user_profile_payload-IsBytes =
      All-append IsByte (write_be64 user_id) _ (write_be64-IsBytes user_id) (
        All-append IsByte (write_uint16_be (length name % 2 ^ 16)) _
          (write_uint16_be-IsBytes (length name % 2 ^ 16))
          (All-append IsByte name _ v.name_bytes (
            All-append IsByte (write_uint16_be (length avatar % 2 ^ 16)) avatar
              (write_uint16_be-IsBytes (length avatar % 2 ^ 16)) v.avatar_bytes)))

pub encode_partner_ids-IsBytes : (ids : List ℕ) → IsBytes (encode_partner_ids ids)
unfolding encode_partner_ids
encode_partner_ids-IsBytes [] = tt
encode_partner_ids-IsBytes (id ∷ ids) =
    All-append IsByte (write_be64 id) _ (write_be64-IsBytes id) (encode_partner_ids-IsBytes ids)
