-- ===== src/Client/Window/Members.antt =====
-- Who is among the members of the meeting window.
use ccmeeting.Common.{
  ℕ, ◌-◌, ◌^◌, ◌≡◌, refl, ap, ◌∙◌, Bool, true, false, ◌||◌, List, [], ◌∷◌, ltb, ◌==◌, if◌then◌else◌,
}
use ccmeeting.Client.Qt.{Qt}
use ccmeeting.Client.Hub
use ccmeeting.Client.Hub.{Signal}
use ccmeeting.Client.Session.{Participants}
use ccmeeting.Client.Session.Presence.{
  present, present-add, present-remove, present-add_all, present-apply_profile, present-clear,
}
use ccmeeting.Client.Window.{
  User, Window, Event, end_meeting_session, close_meeting_window, enter, on_create_meeting_result,
  on_join_meeting_result, on_remote_host_closed, on_signal, request_connect, flush_pending_connect,
  on_connect_finished, on_network_disconnected, on_ending_timeout, on_event, on_events,
}
use ccmeeting.Client.Window
use ccmeeting.Client.Window.Seen.{
  Seen, closed, comes, requested, over, heard, seen_after, seen_after_all,
}

or_idem : (a b : Bool) → (a || b) || b ≡ a || b
or_idem true b = refl
or_idem false true = refl
or_idem false false = refl

module _ (q : Qt) (self : User q.Str) (u : ℕ) where
  abbrev pub view : Window q.Str → Seen
  view w = record {
    there = present u w.participants;
    ending = w.session_ending;
    active = w.session_active;
    connecting = w.connecting;
    pending = w.has_pending_connect;
  }

  view_if :
      (b : Bool) (x y : Window q.Str) (s t : Seen)
      → view x ≡ s
      → view y ≡ t
      → view (if b then x else y) ≡ (if b then s else t)
  view_if true x y s t hx hy = hx
  view_if false x y s t hx hy = hy

  -- A window with these members, and a user who is there or not.
  abbrev shown : Window q.Str → Bool → Seen
  shown w b = record (view w) { there = b }

  view-end :
      (ps : Participants q.Str) (active connecting pending : Bool)
      → view (
          end_meeting_session q self (record {
            participants = ps;
            session_ending = false;
            session_active = active;
            connecting = connecting;
            has_pending_connect = pending;
          }))
        ≡ record {
          there = false;
          ending = active || connecting;
          active = false;
          connecting = false;
          pending = pending;
        }
  unfolding end_meeting_session
  view-end ps true connecting pending =
      ap
        (λ (b : Bool). record {
          there = b;
          ending = true;
          active = false;
          connecting = false;
          pending = pending;
        })
        (present-clear q u ps)
  view-end ps false true pending =
      ap
        (λ (b : Bool). record {
          there = b;
          ending = true;
          active = false;
          connecting = false;
          pending = pending;
        })
        (present-clear q u ps)
  view-end ps false false pending =
      ap
        (λ (b : Bool). record {
          there = b;
          ending = false;
          active = false;
          connecting = false;
          pending = pending;
        })
        (present-clear q u ps)

  view_at-close :
      (ps : Participants q.Str) (ending active connecting pending : Bool)
      → view (
          close_meeting_window q self (record {
            participants = ps;
            session_ending = ending;
            session_active = active;
            connecting = connecting;
            has_pending_connect = pending;
          }))
        ≡ closed (record {
          there = present u ps;
          ending = ending;
          active = active;
          connecting = connecting;
          pending = pending;
        })
  unfolding close_meeting_window
  view_at-close ps true active connecting pending = refl
  view_at-close ps false active connecting pending = view-end ps active connecting false

  view-close : (w : Window q.Str) → view (close_meeting_window q self w) ≡ closed (view w)
  view-close w =
      view_at-close w.participants w.session_ending w.session_active w.connecting
        w.has_pending_connect

  view-enter : (w : Window q.Str) → view (enter q self w) ≡ comes (self.user_id == u) (view w)
  unfolding enter
  view-enter w = ap (shown w) (
      present-add q self.user_id u _
      ∙ ap (λ b. b || (self.user_id == u))
          (present-apply_profile q self.user_id u self.name self.avatar w.participants)
      ∙ or_idem (present u w.participants) (self.user_id == u))

  view-signal :
      (s : Signal q.Str) (w : Window q.Str)
      → view (on_signal q self s w) ≡ heard self.user_id u s (view w)
  unfolding on_signal on_create_meeting_result on_join_meeting_result on_remote_host_closed
  view-signal (Hub.create_meeting_result room_no) w =
      view_if (room_no == 0) _ _ _ _ (view-close w) (view-enter w)
  view-signal (Hub.join_meeting_result code) w = view_if (code == 0) _ _ _ _ (view-close w) (
      view_if (code == 2 ^ 32 - 1) _ _ _ _ (view-close w)
        (view_if (ltb code (2 ^ 31)) _ _ _ _ (view-enter w) refl))
  view-signal Hub.remote_host_closed w = view_if w.session_ending _ _ _ _ refl (view-close w)
  view-signal Hub.other_net_error w = view_if w.session_ending _ _ _ _ refl (view-close w)
  view-signal (Hub.partner_joined id) w = ap (shown w) (present-add q id u w.participants)
  view-signal (Hub.partner_exited id) w = ap (shown w) (present-remove q id u w.participants)
  view-signal (Hub.partners_snapshot ids) w = ap (shown w) (present-add_all q ids u w.participants)
  view-signal (Hub.user_profile id name avatar) w =
      ap (shown w) (present-apply_profile q id u name avatar w.participants)
  view-signal (Hub.camera_closed id) w = refl
  view-signal (Hub.room_settings_received flags) w = refl
  view-signal (Hub.text_received id text) w = refl

  view-request : (w : Window q.Str) → view (request_connect q self w) ≡ requested (view w)
  unfolding request_connect
  view-request w = view_if (w.session_ending || w.connecting) _ _ _ _ refl refl

  view_at-disconnected :
      (ps : Participants q.Str) (ending active connecting pending : Bool)
      → view (
          on_network_disconnected q self (record {
            participants = ps;
            session_ending = ending;
            session_active = active;
            connecting = connecting;
            has_pending_connect = pending;
          }))
        ≡ over (record {
          there = present u ps;
          ending = ending;
          active = active;
          connecting = connecting;
          pending = pending;
        })
  unfolding on_network_disconnected flush_pending_connect request_connect
  view_at-disconnected ps ending active connecting true = refl
  view_at-disconnected ps ending active connecting false = refl

  view-disconnected : (w : Window q.Str) → view (on_network_disconnected q self w) ≡ over (view w)
  view-disconnected w =
      view_at-disconnected w.participants w.session_ending w.session_active w.connecting
        w.has_pending_connect

  view-event :
      (e : Event q.Str) (w : Window q.Str)
      → view (on_event q self e w) ≡ seen_after self.user_id u e (view w)
  unfolding on_event on_connect_finished on_ending_timeout
  view-event (Window.signal s) w = view-signal s w
  view-event Window.close w = view-close w
  view-event Window.connect_requested w = view-request w
  view-event (Window.connect_finished true) w = refl
  view-event (Window.connect_finished false) w = view-close (record w { connecting = false })
  view-event Window.network_disconnected w = view-disconnected w
  view-event Window.ending_timeout w = view_if w.session_ending _ _ _ _ (view-disconnected w) refl

  -- After any sequence of the window's signals, closes, connection requests and connection ends, a
  -- user is among the members, and the session is ending, active, connecting or waiting to
  -- connect, exactly as the sequence says: a granted meeting brings the local user in, joining, a
  -- snapshot and a profile bring others in, leaving takes one out, and a refusal, an error and a
  -- close take everybody out unless the session is ending.
  pub view-on_events :
      (events : List (Event q.Str)) (w : Window q.Str)
      → view (on_events q self events w) ≡ seen_after_all self.user_id u events (view w)
  view-on_events [] w = refl
  view-on_events (e ∷ events) w =
      view-on_events events (on_event q self e w)
      ∙ ap (seen_after_all self.user_id u events) (view-event e w)
