-- ===== src/Meeting/Consistent/Found.antt =====
-- A meeting is created.
use ccmeeting.Common.{
  ℕ, ◌≤◌, min, ◌≡◌, refl, ◌≢◌, inl, inr, true, false, ◌||◌, some, [], arith, leb, ◌==◌,
  if◌then◌else◌, ==_self, ==_ne, Bool-cases, length,
}
use ccmeeting.Common.Table.{lookup, emplace}
use ccmeeting.Meeting.Room.{
  Room, Participant, RoomOptions, ServerConfig, new_room, add_participant, start_expire_timer,
}
use ccmeeting.Meeting.Consistent.{HasOwner}

-- A room that has just been made: its owner is alone in it.
pub record IsNew (config : ServerConfig) (id c : ℕ) (room : Room) : Type 0 where
  pub new_id : room.room_id ≡ id
  pub new_open : room.closed ≡ false
  pub one : length room.participants ≡ 1
  pub owner_there : HasOwner room
  pub alone : (d : ℕ) (p : Participant) → lookup d room.participants ≡ some p → c ≡ d
  pub fits : 1 ≤ room.options.max_participants
  pub capped : room.options.max_participants ≤ config.max_participants_per_room

alone-new : (c d : ℕ) (p q : Participant) → lookup d (emplace c p []) ≡ some q → c ≡ d
unfolding lookup emplace
alone-new c d p q h = ground arith

length-new : (c : ℕ) (p : Participant) → length (emplace c p []) ≡ 1
unfolding emplace
length-new c p = refl

lookup-new : (c : ℕ) (p : Participant) → lookup c (emplace c p []) ≡ some p
unfolding lookup emplace
lookup-new c p = rw (==_self c) refl

module _ (config : ServerConfig) (id c : ℕ) (options : RoomOptions) (user_id : ℕ)
    (roomy : 1 ≤ config.max_participants_per_room) (known : user_id ≢ 0) where
  abbrev limit : ℕ
  limit =
      if options.max_participants == 0
      then config.max_participants_per_room
      else options.max_participants

  limit-pos : 1 ≤ limit
  limit-pos = ground arith

  pub new_room-IsNew : IsNew config id c (new_room id c true config options user_id)
  unfolding new_room add_participant
  new_room-IsNew =
      rw (room_left, ==_ne user_id 0 known, new_room, add_participant)
        (record {
          new_id = refl;
          new_open = refl;
          one = length-new c _;
          owner_there = (c, _, lookup-new c _, refl);
          alone = λ d p l. alone-new c d _ p l;
          fits = omega (arith, limit-pos);
          capped = omega arith;
        })
    where
      room_left : leb (min limit config.max_participants_per_room) 0 ≡ false
      room_left = ground (arith, limit-pos)

pub start_expire_timer-IsNew :
    (config : ServerConfig) (id c : ℕ) (room : Room)
    → IsNew config id c room
    → IsNew config id c (start_expire_timer room)
unfolding start_expire_timer
start_expire_timer-IsNew config id c room v =
    elim (Bool-cases ((room.options.duration_minutes == 0) || room.closed)) [
      | inl e ↦ rw (e, start_expire_timer) v
      | inr e ↦
          rw (e, start_expire_timer)
            (record {
              new_id = v.new_id;
              new_open = v.new_open;
              one = v.one;
              owner_there = v.owner_there;
              alone = v.alone;
              fits = v.fits;
              capped = v.capped;
            })
    ]
