-- ===== src/Meeting/Consistent.antt =====
-- What holds of the server's objects between two events: the manager's rooms, the service's map of
-- connections and the rooms' participants agree. `x` is the room that is being closed, if one is;
-- `Consistent none` is the invariant.
pub mod Flags
pub mod Leave
pub mod Drop
pub mod Shut
pub mod Cleanup
pub mod Members
pub mod Close
pub mod Rewrite
pub mod Arrive
pub mod Found
pub mod Enter
pub mod Join
pub mod Create
pub mod Lobby
pub mod Steps
use ccmeeting.Common.{none, [], true, ◌≢◌, some, false, ◌≤◌, ◌≡◌, Option, length, ℕ}
use ccmeeting.Common.Table.{lookup, Distinct}
use ccmeeting.Meeting.Room.{Room, Participant, ServerConfig}
use ccmeeting.Meeting.World.{World}

-- A room by itself.
pub record IsRoom (config : ServerConfig) (room : Room) : Type 0 where
  pub sized : length room.participants ≤ room.options.max_participants
  pub capped : room.options.max_participants ≤ config.max_participants_per_room
  -- At most one of the participants is the owner.
  pub sole_owner :
      (c d : ℕ) (p q : Participant)
      → lookup c room.participants ≡ some p
      → lookup d room.participants ≡ some q
      → p.is_owner ≡ true
      → q.is_owner ≡ true
      → c ≡ d
  pub emptied : room.closed ≡ true → room.participants ≡ []

-- An open room has its owner.
abbrev pub HasOwner : Room → Type 0
HasOwner room =
    (c : ℕ) × (p : Participant) × (lookup c room.participants ≡ some p) × (p.is_owner ≡ true)

abbrev pub IsMember : ℕ → Room → Type 0
IsMember c room = (p : Participant) × (lookup c room.participants ≡ some p)

abbrev pub IsOpenFor : ℕ → Room → Type 0
IsOpenFor c room = (room.closed ≡ false) × IsMember c room

-- What the manager's entry for a number says of its room.
abbrev pub IsLive : Option ℕ → ℕ → ℕ → Room → Type 0
IsLive x id ref room = (room.room_id ≡ id) × (x ≢ some ref → room.closed ≡ false)

pub record Consistent (x : Option ℕ) (w : World) : Type 0 where
  pub is_room : (ref : ℕ) (room : Room) → w.heap ref ≡ some room → IsRoom w.config room
  pub owned :
      (ref : ℕ) (room : Room)
      → w.heap ref ≡ some room
      → room.closed ≡ false
      → x ≢ some ref
      → HasOwner room
  -- The manager knows the open rooms, and no others.
  pub listed :
      (ref : ℕ) (room : Room)
      → w.heap ref ≡ some room
      → room.closed ≡ false
      → lookup room.room_id w.rooms ≡ some ref
  pub live :
      (id ref : ℕ)
      → lookup id w.rooms ≡ some ref
      → (room : Room) × (w.heap ref ≡ some room) × IsLive x id ref room
  pub called : (ref : ℕ) (room : Room) → w.heap ref ≡ some room → room.close_callback ≡ true
  -- The service maps a connection to the room in which it is a participant.
  pub mapped :
      (c ref : ℕ)
      → lookup c w.connection_room ≡ some ref
      → (room : Room) × (w.heap ref ≡ some room) × (x ≢ some ref → IsOpenFor c room)
  -- A participant's connection is open and mapped to the room.
  pub entered :
      (ref : ℕ) (room : Room) (c : ℕ) (p : Participant)
      → w.heap ref ≡ some room
      → lookup c room.participants ≡ some p
      → (lookup c w.connection_room ≡ some ref) × ((w.conns c).closed ≡ false)
  pub handled : (c : ℕ) → (w.conns c).closed ≡ false → (w.conns c).close_handler ≡ true
  pub fresh_refs : (ref : ℕ) → w.next_ref ≤ ref → w.heap ref ≡ none
  pub fresh_conns : (c : ℕ) → w.next_connection_id ≤ c → (w.conns c).closed ≡ true
  pub keys : Distinct w.connection_room
  pub few_rooms : length w.rooms ≤ w.config.max_rooms
  -- The configuration lets a room have a participant.
  pub roomy : 1 ≤ w.config.max_participants_per_room
