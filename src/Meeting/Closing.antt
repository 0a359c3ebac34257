-- ===== src/Meeting/Closing.antt =====
-- Closing, which runs through four classes: `Connection::close` calls the service's
-- `on_connection_close`, which calls `Room::remove_participant`, which closes the room when the owner
-- has gone, and `Room::close_room` closes the members' connections and then calls back
-- `MeetingService::cleanup_room`. The calls nest, so `close` takes fuel; each level of it is a call
-- of `close` inside a call of `close`.
use ccmeeting.Common.{ℕ, zero, suc, true, false, Option, none, some, [], ◌∷◌, ◌==◌, if◌then◌else◌}
use ccmeeting.Common.Table.{Table, lookup, erase}
use ccmeeting.Common.Run.{Run, done, out_of_fuel, ◌>>=◌}
use ccmeeting.Protocol.MessageType
use ccmeeting.Protocol.Json.{Json}
use ccmeeting.Meeting.Room.{Participant, Room}
use ccmeeting.Meeting.World.{World, set_conn, set_room, is_conn_open}
use ccmeeting.Meeting.Relay.{broadcast, bare}

-- `RoomManager::remove_room`
unfoldable pub remove_room : ℕ → World → World
remove_room room_id w = record w { rooms = erase room_id w.rooms }

-- The loop of `cleanup_room`: the entries whose room has the id go.
unfoldable pub forget_room : ℕ → (ℕ → Option Room) → Table ℕ → Table ℕ
forget_room room_id heap [] = []
forget_room room_id heap ((c, ref) ∷ rest) =
    let kept = forget_room room_id heap rest in
    elim (heap ref) [
      | none ↦ (c, ref) ∷ kept
      | some room ↦ if room.room_id == room_id then kept else (c, ref) ∷ kept
    ]

-- `MeetingService::cleanup_room`
unfoldable pub cleanup_room : ℕ → World → World
unfolding forget_room remove_room
cleanup_room room_id w =
    remove_room room_id
      (record w { connection_room = forget_room room_id w.heap w.connection_room })

-- The handler of `notify_close`, which is called, is cleared.
abbrev pub clear_handler : ℕ → World → World
clear_handler c w = set_conn c (record (w.conns c) { close_handler = false }) w

module _ (j : Json) where
  -- The loop of `close_room` over the copied participants; `close` is `Connection::close`.
  unfoldable pub close_members : (ℕ → World → Run World) → Table Participant → World → Run World
  close_members close [] w = done w
  close_members close ((c, p) ∷ rest) w = do
    w' ← (if is_conn_open w c then close c w else done w)
    close_members close rest w'

  -- `if (_close_callback) _close_callback(_room_id)`
  unfoldable pub call_back : Room → World → World
  call_back room w = if room.close_callback then cleanup_room room.room_id w else w

  -- `Room::close_room`, on the room that `ref` refers to. The timer is cancelled.
  unfoldable pub close_room : (ℕ → World → Run World) → ℕ → World → Run World
  close_room close ref w = elim (w.heap ref) [
    | none ↦ done w
    | some room ↦ if room.closed then done w else (do
      w' ←
          close_members close room.participants
            (set_room ref (record room { closed = true; timer = false; participants = [] }) w)
      done (call_back room w'))
  ]

  -- `remove_participant` behind the lookup: `entry` has been erased from `room`.
  unfoldable pub after_erase : (ℕ → World → Run World) → ℕ → Room → Participant → World → Run World
  after_erase close ref room entry w = if entry.is_owner then close_room close ref w else (do
    conns ← broadcast j (bare MessageType.partner_exit entry.user_id) 0 room w.conns
    done (record w { conns = conns }))

  -- `Room::remove_participant`
  unfoldable pub remove_participant : (ℕ → World → Run World) → ℕ → ℕ → World → Run World
  remove_participant close ref c w = elim (w.heap ref) [
    | none ↦ done w
    | some room ↦ if room.closed then done w else elim (lookup c room.participants) [
      | none ↦ done w
      | some entry ↦
          let room' = record room { participants = erase c room.participants } in
          after_erase close ref room' entry (set_room ref room' w)
    ]
  ]

  -- `MeetingService::on_connection_close`
  unfoldable pub on_connection_close : (ℕ → World → Run World) → ℕ → World → Run World
  on_connection_close close c w = elim (lookup c w.connection_room) [
    | none ↦ done w
    | some ref ↦
        remove_participant close ref c (record w { connection_room = erase c w.connection_room })
  ]

  -- `notify_close`
  unfoldable pub notify_close : (ℕ → World → Run World) → ℕ → World → Run World
  notify_close close c w =
      if (w.conns c).close_handler
      then (do w' ← on_connection_close close c w; done (clear_handler c w'))
      else done w

  -- `Connection::close`
  unfoldable pub close : ℕ → ℕ → World → Run World
  close zero c w = out_of_fuel
  close (suc fuel) c w =
      if (w.conns c).closed
      then done w
      else notify_close (close fuel) c (set_conn c (record (w.conns c) { closed = true }) w)
