-- ===== src/Meeting/Room/Profile.antt =====
-- The profile packet that a room sends for a participant carries the participant's profile.
use ccmeeting.Common.{
  ◌+◌, ◌%◌, ◌^◌, ◌<◌, ◌≡◌, refl, sym, ap, ◌∙◌, true, ◌++◌, arith, leb, length, drop, length-append,
  take-append, drop-append, drop-drop, take_all, Bytes,
}
use ccmeeting.Wire.{read_uint16_be, write_uint16_be, write_be64}
use ccmeeting.Wire.RoundTrip.{
  read-write_be64, read-write_uint16_be, length-write_be64, length-write_uint16_be,
}
use ccmeeting.Meeting.Room.{Participant, apply_profile, read_avatar, make_user_profile_packet}

-- A name and an avatar whose lengths fit 16 bits, and a 64-bit user id.
pub record IsEncodable (p : Participant) : Type 0 where
  pub id_fits : p.user_id < 2 ^ 64
  pub name_fits : length p.display_name < 2 ^ 16
  pub avatar_fits : length p.avatar_url < 2 ^ 16

module _ (p q : Participant) (v : IsEncodable p) where
  abbrev avatar_part : Bytes
  avatar_part = write_uint16_be (length p.avatar_url % 2 ^ 16) ++ p.avatar_url

  abbrev name_part : Bytes
  name_part = write_uint16_be (length p.display_name % 2 ^ 16) ++ (p.display_name ++ avatar_part)

  abbrev pub profile : Bytes
  profile = write_be64 p.user_id ++ name_part

  length-avatar_part : length avatar_part ≡ 2 + length p.avatar_url
  length-avatar_part = omega (
    arith,
    length-append (write_uint16_be (length p.avatar_url % 2 ^ 16)) p.avatar_url,
    length-write_uint16_be (length p.avatar_url % 2 ^ 16),
  )

  length-name_part : length name_part ≡ 4 + length p.display_name + length p.avatar_url
  length-name_part = omega (
    arith,
    length-append (write_uint16_be (length p.display_name % 2 ^ 16))
        (p.display_name ++ avatar_part),
    length-write_uint16_be (length p.display_name % 2 ^ 16),
    length-append p.display_name avatar_part,
    length-avatar_part,
  )

  pub length-profile : length profile ≡ 12 + length p.display_name + length p.avatar_url
  length-profile = omega (
    arith,
    length-append (write_be64 p.user_id) name_part,
    length-write_be64 p.user_id,
    length-name_part,
  )

  drop_id : drop 8 profile ≡ name_part
  drop_id = drop-append 8 (write_be64 p.user_id) name_part (sym (length-write_be64 p.user_id))

  pub read_name_len : read_uint16_be (drop 8 profile) ≡ length p.display_name
  read_name_len = rw drop_id (read-write_uint16_be _ _ (omega arith) ∙ omega (arith, v.name_fits))

  pub drop_name_len : drop 10 profile ≡ p.display_name ++ avatar_part
  drop_name_len =
      sym (drop-drop 2 8 profile)
      ∙ ap (drop 2) drop_id
      ∙ drop-append 2 (write_uint16_be (length p.display_name % 2 ^ 16)) _
          (sym (length-write_uint16_be (length p.display_name % 2 ^ 16)))

  drop_name : drop (10 + length p.display_name) profile ≡ avatar_part
  drop_name =
      sym (drop-drop (length p.display_name) 10 profile)
      ∙ ap (drop (length p.display_name)) drop_name_len
      ∙ drop-append (length p.display_name) p.display_name avatar_part refl

  pub read_avatar_len :
      read_uint16_be (drop (10 + length p.display_name) profile) ≡ length p.avatar_url
  read_avatar_len =
      rw drop_name (read-write_uint16_be _ _ (omega arith) ∙ omega (arith, v.avatar_fits))

  pub drop_avatar_len : drop (10 + length p.display_name + 2) profile ≡ p.avatar_url
  drop_avatar_len =
      sym (drop-drop 2 (10 + length p.display_name) profile)
      ∙ ap (drop 2) drop_name
      ∙ drop-append 2 (write_uint16_be (length p.avatar_url % 2 ^ 16)) p.avatar_url
          (sym (length-write_uint16_be (length p.avatar_url % 2 ^ 16)))

  read_avatar-profile :
      (r : Participant)
      → read_avatar (10 + length p.display_name) profile r ≡ record r { avatar_url = p.avatar_url }
  unfolding read_avatar
  read_avatar-profile r =
      rw
        (
          read_avatar_len,
          room,
          drop_avatar_len,
          take_all (length p.avatar_url) p.avatar_url (omega arith),
        )
        refl
    where
      room : leb (10 + length p.display_name + 2 + length p.avatar_url) (length profile) ≡ true
      room = ground (arith, length-profile)

  apply_profile-profile :
      apply_profile profile q
      ≡ record q { user_id = p.user_id; display_name = p.display_name; avatar_url = p.avatar_url }
  unfolding apply_profile
  apply_profile-profile =
      rw
        (
          long,
          read_name_len,
          name_room,
          read_avatar-profile,
          read-write_be64 p.user_id name_part v.id_fits,
          drop_name_len,
          take-append (length p.display_name) p.display_name avatar_part refl,
        )
        refl
    where
      long : leb 12 (length profile) ≡ true
      long = ground (arith, length-profile)

      name_room : leb (10 + length p.display_name + 2) (length profile) ≡ true
      name_room = ground (arith, length-profile)

  -- Applying the payload of the profile packet made from one participant's entry to another entry
  -- gives that entry the first one's user id, name and avatar, and nothing else, if the id is
  -- below 2^64 and both strings are shorter than 2^16 bytes.
  pub apply-make_user_profile_packet :
      apply_profile (make_user_profile_packet p).payload q
      ≡ record q { user_id = p.user_id; display_name = p.display_name; avatar_url = p.avatar_url }
  unfolding make_user_profile_packet
  apply-make_user_profile_packet = apply_profile-profile
