-- ===== src/Client/Session.antt =====
-- The members and the settings that a client shows: `ParticipantsController` and
-- `RoomSettingsController` of client/src/widget/meeting. What they draw is left out.
pub mod Presence
pub mod Permission
use ccmeeting.Common.{
  ℕ, ◌/◌, ◌%◌, Bool, true, false, ◌&&◌, ◌||◌, not, Option, none, some, List, [], ◌∷◌, ◌==◌,
  if◌then◌else◌,
}
use ccmeeting.Common.Table.{Table, lookup, emplace, erase, assign}
use ccmeeting.Client.Qt.{Qt}

-- `Partner`, by what it is shown with.
pub record Partner (Str : Type 0) : Type 0 where
  pub display_name : Str
  pub avatar_url : Str

-- `ParticipantsController`
pub record Participants (Str : Type 0) : Type 0 where
  pub partners : Table (Partner Str)
  pub main_user_id : ℕ

-- `RoomSettingsController`; `recorder` is `none` for a null pointer, else whether it records.
pub record RoomSettings : Type 0 where
  pub flags : ℕ
  pub is_host : Bool
  pub session_active : Bool
  pub room_no : ℕ
  pub recorder : Option Bool

-- `_flags & ROOM_SETTINGS_ALLOW_RECORD`, bit 0
unfoldable pub can_record : RoomSettings → Bool
can_record s = not (s.flags % 2 == 0)

-- `_flags & ROOM_SETTINGS_ALLOW_MEMBER_SHARE`, bit 1
unfoldable pub can_share_screen : RoomSettings → Bool
can_share_screen s = s.is_host || not (s.flags / 2 % 2 == 0)

abbrev pub records : Option Bool → Bool
records none = false
records (some b) = b

unfoldable pub is_recording : RoomSettings → Bool
is_recording s = records s.recorder

unfoldable pub stop_recording : RoomSettings → RoomSettings
unfolding is_recording
stop_recording s = if is_recording s then record s { recorder = some false } else s

unfoldable pub apply_flags : ℕ → RoomSettings → RoomSettings
apply_flags flags s =
    let s' = record s { flags = flags } in
    if not (can_record s') && is_recording s' then stop_recording s' else s'

-- An edit in the popup, and the slot of `MeetingWidget` for it; the flags are sent, too.
unfoldable pub edit_flags : (in_meeting : Bool) → ℕ → RoomSettings → RoomSettings
unfolding apply_flags
edit_flags in_meeting flags s =
    let s' = record s { flags = flags } in
    if not s.is_host || not in_meeting then s' else apply_flags flags s'

-- `starts` is what `_recorder->start` returns; the result is that of the call.
unfoldable pub start_recording : (starts : Bool) → RoomSettings → Bool × RoomSettings
start_recording starts s = elim s.recorder [
  | none ↦ (false, s)
  | some recording ↦
      if recording || (not s.session_active || (not (can_record s) || not starts))
      then (false, s)
      else (true, record s { recorder = some true })
]

module _ (q : Qt) where
  abbrev pub new_partner : Partner q.Str
  new_partner = record { display_name = q.from_utf8 []; avatar_url = q.from_utf8 [] }

  unfoldable pub add : ℕ → Participants q.Str → Participants q.Str
  add user_id ps = elim (lookup user_id ps.partners) [
    | some p ↦ ps
    | none ↦ record ps { partners = emplace user_id new_partner ps.partners }
  ]

  unfoldable pub remove : ℕ → Participants q.Str → Participants q.Str
  remove user_id ps = elim (lookup user_id ps.partners) [
    | none ↦ ps
    | some p ↦ record ps { partners = erase user_id ps.partners }
  ]

  unfoldable pub clear : Participants q.Str → Participants q.Str
  clear ps = elim ps.partners [ [] ↦ ps | e ∷ rest ↦ record { partners = []; main_user_id = 0 } ]

  unfoldable pub apply_profile :
      ℕ → (display_name avatar_url : q.Str) → Participants q.Str → Participants q.Str
  unfolding add
  apply_profile user_id name avatar ps =
      let ps' = add user_id ps in
      record ps' {
        partners =
            assign user_id (record { display_name = name; avatar_url = avatar }) ps'.partners;
      }

  unfoldable pub display_name : ℕ → Participants q.Str → q.Str
  display_name user_id ps = elim (lookup user_id ps.partners) [
    | none ↦ q.number user_id
    | some p ↦ if q.is_empty p.display_name then q.number user_id else p.display_name
  ]

  unfoldable pub avatar_url : ℕ → Participants q.Str → q.Str
  avatar_url user_id ps = elim (lookup user_id ps.partners) [
    | none ↦ q.from_utf8 []
    | some p ↦ p.avatar_url
  ]

  unfoldable pub select_main : ℕ → Participants q.Str → Participants q.Str
  select_main user_id ps = record ps { main_user_id = user_id }

  -- The loop of `on_partners_snapshot`
  unfoldable pub add_all : List ℕ → Participants q.Str → Participants q.Str
  add_all [] ps = ps
  add_all (id ∷ ids) ps = add_all ids (add id ps)
