-- ===== src/Client/Window.antt =====
-- The meeting window, `MeetingWidget` of client/src/widget/meeting/meeting_widget.cpp: its slots for the
-- dispatcher's signals and for the connection, as far as they change the members or the flags of the
-- session. There is a network manager; what the slots draw, and the media, are left out.
pub mod Members
pub mod Seen
use ccmeeting.Common.{ℕ, ◌-◌, ◌^◌, Bool, true, false, ◌||◌, List, [], ◌∷◌, ltb, ◌==◌, if◌then◌else◌}
use ccmeeting.Client.Qt.{Qt}
use ccmeeting.Client.Hub
use ccmeeting.Client.Hub.{Signal}
use ccmeeting.Client.Session.{Participants, add, remove, clear, apply_profile, add_all}

-- `UserSession::instance()`
pub record User (Str : Type 0) : Type 0 where
  pub user_id : ℕ
  pub name : Str
  pub avatar : Str

-- `_participants` and the flags of `_state` that decide on it.
pub record Window (Str : Type 0) : Type 0 where
  pub participants : Participants Str
  pub session_ending : Bool
  pub session_active : Bool
  pub connecting : Bool
  pub has_pending_connect : Bool

-- What the window is called for: a signal of the dispatcher; a close, by the user or because the media
-- are lost; a request to connect and its end; the network's notice, and the timer of 800 ms.
pub data Event (Str : Type 0) : Type 0 where
  signal : Signal Str → Event Str
  close connect_requested : Event Str
  connect_finished : (ok : Bool) → Event Str
  network_disconnected ending_timeout : Event Str

module _ (q : Qt) (self : User q.Str) where
  unfoldable pub end_meeting_session : Window q.Str → Window q.Str
  end_meeting_session w =
      let w' = record w { connecting = false; participants = clear q w.participants } in
      if w.session_active || w.connecting
      then record w' { session_ending = true; session_active = false }
      else w'

  unfoldable pub close_meeting_window : Window q.Str → Window q.Str
  unfolding end_meeting_session
  close_meeting_window w =
      let w' = record w { has_pending_connect = false } in
      if w'.session_ending then w' else end_meeting_session w'

  -- The local user becomes a member.
  unfoldable pub enter : Window q.Str → Window q.Str
  enter w = record w {
    participants =
        add q self.user_id (apply_profile q self.user_id self.name self.avatar w.participants);
  }

  unfoldable pub on_create_meeting_result : ℕ → Window q.Str → Window q.Str
  unfolding enter close_meeting_window
  on_create_meeting_result room_no w = if room_no == 0 then close_meeting_window w else enter w

  -- The code is an `int` of 32 bits, by its two's complement.
  unfoldable pub on_join_meeting_result : ℕ → Window q.Str → Window q.Str
  unfolding enter close_meeting_window
  on_join_meeting_result code w =
      if code == 0
      then close_meeting_window w
      else if code == 2 ^ 32 - 1
      then close_meeting_window w
      else if ltb code (2 ^ 31)
      then enter w
      else w

  -- `on_remote_host_closed` and `on_other_net_error`
  unfoldable pub on_remote_host_closed : Window q.Str → Window q.Str
  unfolding close_meeting_window
  on_remote_host_closed w = if w.session_ending then w else close_meeting_window w

  -- The slots that the dispatcher's signals are connected to.
  unfoldable pub on_signal : Signal q.Str → Window q.Str → Window q.Str
  unfolding on_create_meeting_result on_join_meeting_result on_remote_host_closed
  on_signal (Hub.create_meeting_result room_no) w = on_create_meeting_result room_no w
  on_signal (Hub.join_meeting_result code) w = on_join_meeting_result code w
  on_signal Hub.remote_host_closed w = on_remote_host_closed w
  on_signal Hub.other_net_error w = on_remote_host_closed w
  on_signal (Hub.partner_joined id) w = record w { participants = add q id w.participants }
  on_signal (Hub.partner_exited id) w = record w { participants = remove q id w.participants }
  on_signal (Hub.partners_snapshot ids) w = record w { participants = add_all q ids w.participants }
  on_signal (Hub.user_profile id name avatar) w = record w {
    participants = apply_profile q id name avatar w.participants;
  }
  on_signal (Hub.camera_closed id) w = w
  on_signal (Hub.room_settings_received flags) w = w
  on_signal (Hub.text_received id text) w = w

  unfoldable pub request_connect : Window q.Str → Window q.Str
  request_connect w =
      if w.session_ending || w.connecting
      then record w { has_pending_connect = true }
      else record w { connecting = true }

  unfoldable pub flush_pending_connect : Window q.Str → Window q.Str
  unfolding request_connect
  flush_pending_connect w =
      if w.has_pending_connect
      then request_connect (record w { has_pending_connect = false })
      else w

  unfoldable pub on_connect_finished : (ok : Bool) → Window q.Str → Window q.Str
  unfolding close_meeting_window
  on_connect_finished ok w =
      let w' = record w { connecting = false } in
      if ok then record w' { session_active = true } else close_meeting_window w'

  unfoldable pub on_network_disconnected : Window q.Str → Window q.Str
  unfolding flush_pending_connect
  on_network_disconnected w =
      flush_pending_connect
        (record w { session_active = false; session_ending = false; connecting = false })

  -- The slot of the timer that `end_meeting_session` starts.
  unfoldable pub on_ending_timeout : Window q.Str → Window q.Str
  unfolding on_network_disconnected
  on_ending_timeout w = if w.session_ending then on_network_disconnected w else w

  unfoldable pub on_event : Event q.Str → Window q.Str → Window q.Str
  unfolding on_signal request_connect on_connect_finished on_network_disconnected on_ending_timeout
  on_event (signal s) w = on_signal s w
  on_event close w = close_meeting_window w
  on_event connect_requested w = request_connect w
  on_event (connect_finished ok) w = on_connect_finished ok w
  on_event network_disconnected w = on_network_disconnected w
  on_event ending_timeout w = on_ending_timeout w

  abbrev pub on_events : List (Event q.Str) → Window q.Str → Window q.Str
  on_events [] w = w
  on_events (e ∷ events) w = on_events events (on_event e w)
