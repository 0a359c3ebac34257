-- ===== src/Meeting/Service/Options.antt =====
-- The options of a new meeting.
use ccmeeting.Common.{ℕ, ◌*◌, ◌%◌, ◌^◌, ◌≤◌, ◌<◌, arith, Bytes}
use ccmeeting.Meeting.Room.{ServerConfig}
use ccmeeting.Meeting.Service.{parse_create_meeting_options, clamp}

clamp-bounds : (v lo hi : ℕ) → lo ≤ hi → (lo ≤ clamp v lo hi) × (clamp v lo hi ≤ hi)
unfolding clamp
clamp-bounds v lo hi h = ground arith

-- If the configured limit of participants lies between 2 and 2^32 - 1, the options taken from any
-- payload allow between 2 and that many participants and between 1 minute and 24 hours.
pub parse_create_meeting_options-bounds :
    (payload : Bytes) (config : ServerConfig)
    → 2 ≤ config.max_participants_per_room
    → config.max_participants_per_room < 2 ^ 32
    → (2 ≤ (parse_create_meeting_options payload config).max_participants)
      × ((parse_create_meeting_options payload config).max_participants
          ≤ config.max_participants_per_room)
      × (1 ≤ (parse_create_meeting_options payload config).duration_minutes)
      × ((parse_create_meeting_options payload config).duration_minutes ≤ 24 * 60)
unfolding parse_create_meeting_options
parse_create_meeting_options-bounds payload config h small = omega (
  arith,
  clamp-bounds _ 2 (config.max_participants_per_room % 2 ^ 32) (omega arith),
  clamp-bounds _ 1 (24 * 60) (omega arith),
)
