-- ===== src/Meeting/Manager.antt =====
-- `RoomManager` of message_server/src/meeting/room_manager.cpp.
pub mod RoomId
use ccmeeting.Common.{
  [], zero, ◌^◌, true, ◌%◌, length, suc, false, some, leb, not, ◌==◌, none, ◌+◌, Option, Bool, ◌∷◌,
  if◌then◌else◌, List, ℕ,
}
use ccmeeting.Common.Table.{Table, lookup, emplace}
use ccmeeting.Meeting.Room.{Room, RoomOptions, add_participant, new_room, start_expire_timer}
use ccmeeting.Meeting.World.{World, set_room, update, is_conn_open}

-- `kRoomIdMin`, `kRoomIdMax` and `kRoomIdAttempts`
abbrev pub room_id_min : ℕ
room_id_min = 100000

abbrev pub room_id_max : ℕ
room_id_max = 999999

abbrev pub room_id_attempts : ℕ
room_id_attempts = 32

-- `_rooms.find(id) != _rooms.end()`
unfoldable pub in_use : ℕ → Table ℕ → Bool
in_use id rooms = elim (lookup id rooms) [ none ↦ false | some ref ↦ true ]

-- The loop over random candidates. `draws` is what `random_room_id` returns, call by call; 0 where
-- all of them are in use.
unfoldable pub first_free : List ℕ → Table ℕ → ℕ
first_free [] rooms = 0
first_free (candidate ∷ draws) rooms =
    let rest = first_free draws rooms in if in_use candidate rooms then rest else candidate

-- The fallback: `room_id = _next_room_id++` until it is free. It returns the number and the new
-- `_next_room_id`.
unfoldable pub next_free : ℕ → ℕ → Table ℕ → Option (ℕ × ℕ)
next_free zero next rooms = none
next_free (suc fuel) next rooms =
    let rest = next_free fuel ((next + 1) % 2 ^ 32) rooms in
    if in_use next rooms then rest else some (next, (next + 1) % 2 ^ 32)

-- The number for a new room and the new `_next_room_id`. A room in the way costs the fallback one
-- round, so one round more than there are rooms is enough.
unfoldable pub choose_room_id : List ℕ → ℕ → Table ℕ → Option (ℕ × ℕ)
choose_room_id draws next rooms =
    let candidate = first_free draws rooms in
    if candidate == 0 then next_free (length rooms + 1) next rooms else some (candidate, next)

-- A new object on the heap, entered under its number.
unfoldable pub add_room : ℕ → ℕ → Room → World → World
add_room room_id next room w = record w {
  next_ref = w.next_ref + 1;
  heap = update w.heap w.next_ref (some room);
  rooms = emplace room_id w.next_ref w.rooms;
  next_room_id = next;
}

-- `RoomManager::create_room`; the number in the result is the optional's value.
unfoldable pub create_room : List ℕ → ℕ → RoomOptions → ℕ → World → Option ℕ × World
create_room draws owner options owner_user_id w =
    if not (is_conn_open w owner)
    then (none, w)
    else if leb w.config.max_rooms (length w.rooms)
    then (none, w)
    else elim (choose_room_id draws w.next_room_id w.rooms) [
      | none ↦ (none, w)
      | some (room_id, next) ↦ (
        some room_id,
        add_room room_id next
            (start_expire_timer
              (new_room room_id owner (is_conn_open w owner) w.config options owner_user_id))
            w,
      )
    ]

-- `RoomManager::JoinResult`
pub data JoinResult : Type 0 where
  joined not_found full closed : JoinResult

-- `join_room` behind the lookup of the room.
unfoldable pub join_found : ℕ → Room → ℕ → ℕ → World → JoinResult × World
join_found ref room conn user_id w =
    if room.closed
    then (closed, w)
    else if leb room.options.max_participants (length room.participants)
    then (full, w)
    else elim (add_participant room conn (is_conn_open w conn) false user_id) [
      | none ↦ (full, w)
      | some room' ↦ (joined, set_room ref room' w)
    ]

-- `get_room`: the reference and the object.
unfoldable pub get_room : ℕ → World → Option (ℕ × Room)
get_room room_id w = elim (lookup room_id w.rooms) [
  | none ↦ none
  | some ref ↦ elim (w.heap ref) [ none ↦ none | some room ↦ some (ref, room) ]
]

-- `RoomManager::join_room`
unfoldable pub join_room : ℕ → ℕ → ℕ → World → JoinResult × World
join_room room_id conn user_id w = elim (get_room room_id w) [
  | none ↦ (not_found, w)
  | some (ref, room) ↦ join_found ref room conn user_id w
]
