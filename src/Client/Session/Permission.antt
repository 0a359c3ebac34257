-- ===== src/Client/Session/Permission.antt =====
-- Nobody records where the host has forbidden it.
use ccmeeting.Common.{
  ℕ, ◌≡◌, refl, sym, ◌∙◌, inl, inr, Bool, true, false, ◌&&◌, not, if◌then◌else◌, Bool-cases,
  true-ne-false,
}
use ccmeeting.Client.Session.{
  RoomSettings, can_record, records, is_recording, stop_recording, apply_flags,
}

-- Whoever records may.
abbrev pub IsPermitted : RoomSettings → Type 0
IsPermitted s = is_recording s ≡ true → can_record s ≡ true

stopped : (s : RoomSettings) → is_recording (stop_recording s) ≡ false
unfolding stop_recording is_recording
stopped s = elim (Bool-cases (records s.recorder)) [
  | inl e ↦ rw (e, stop_recording) refl
  | inr e ↦ rw (e, stop_recording) e
]

-- Whatever the flags were before and are now, behind `apply_flags` a recording is permitted.
pub apply_flags-IsPermitted : (flags : ℕ) (s : RoomSettings) → IsPermitted (apply_flags flags s)
unfolding apply_flags
apply_flags-IsPermitted flags s =
    cases (record s { flags = flags }) (can_record (record s { flags = flags }))
      (is_recording (record s { flags = flags })) refl refl
  where
    cases :
        (t : RoomSettings) (allowed running : Bool)
        → can_record t ≡ allowed
        → is_recording t ≡ running
        → IsPermitted (if not allowed && running then stop_recording t else t)
    cases t true running a r = λ e. a
    cases t false false a r = λ e. absurd (true-ne-false (sym e ∙ r))
    cases t false true a r = λ e. absurd (true-ne-false (sym e ∙ stopped t))
