-- ===== src/Client/Window/Seen.antt =====
-- What the calls of the meeting window say about one user and about the session.
use ccmeeting.Common.{
  ℕ, ◌-◌, ◌^◌, Bool, true, false, ◌&&◌, ◌||◌, not, List, [], ◌∷◌, ltb, ◌==◌, if◌then◌else◌,
}
use ccmeeting.Client.Hub
use ccmeeting.Client.Hub.{Signal}
use ccmeeting.Client.Session.Presence.{joins}
use ccmeeting.Client.Window.{Event}
use ccmeeting.Client.Window

-- What there is to know of one user: whether the window shows the user, and how the session is.
pub record Seen : Type 0 where
  pub there : Bool
  pub ending : Bool
  pub active : Bool
  pub connecting : Bool
  pub pending : Bool

-- Closing takes everybody out, unless the session is ending already; a session that was active or
-- connecting is then ending.
abbrev pub closed : Seen → Seen
closed s = if s.ending then record s { pending = false } else record {
  there = false;
  ending = s.active || s.connecting;
  active = false;
  connecting = false;
  pending = false;
}

-- This user comes, or any of these.
abbrev pub comes : Bool → Seen → Seen
comes is_one s = record s { there = s.there || is_one }

abbrev pub requested : Seen → Seen
requested s =
    if s.ending || s.connecting then record s { pending = true } else record s { connecting = true }

-- The session is over; a request that waited for it is made.
abbrev pub over : Seen → Seen
over s = record s { ending = false; active = false; connecting = s.pending; pending = false }

-- What a signal says about a user; `own` is the local user's id.
abbrev pub heard : {Str : Type 0} → (own u : ℕ) → Signal Str → Seen → Seen
heard own u (Hub.create_meeting_result room_no) s =
    if room_no == 0 then closed s else comes (own == u) s
heard own u (Hub.join_meeting_result code) s =
    if code == 0
    then closed s
    else if code == 2 ^ 32 - 1
    then closed s
    else if ltb code (2 ^ 31)
    then comes (own == u) s
    else s
heard own u Hub.remote_host_closed s = if s.ending then s else closed s
heard own u Hub.other_net_error s = if s.ending then s else closed s
heard own u (Hub.partner_joined id) s = comes (id == u) s
heard own u (Hub.partner_exited id) s = record s { there = s.there && not (id == u) }
heard own u (Hub.partners_snapshot ids) s = record s { there = joins u ids s.there }
heard own u (Hub.user_profile id name avatar) s = comes (id == u) s
heard own u _ s = s

abbrev pub seen_after : {Str : Type 0} → (own u : ℕ) → Event Str → Seen → Seen
seen_after own u (Window.signal x) s = heard own u x s
seen_after own u Window.close s = closed s
seen_after own u Window.connect_requested s = requested s
seen_after own u (Window.connect_finished true) s = record s { connecting = false; active = true }
seen_after own u (Window.connect_finished false) s = closed (record s { connecting = false })
seen_after own u Window.network_disconnected s = over s
seen_after own u Window.ending_timeout s = if s.ending then over s else s

abbrev pub seen_after_all : {Str : Type 0} → (own u : ℕ) → List (Event Str) → Seen → Seen
seen_after_all own u [] s = s
seen_after_all own u (e ∷ events) s = seen_after_all own u events (seen_after own u e s)
