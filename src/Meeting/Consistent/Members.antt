-- ===== src/Meeting/Consistent/Members.antt =====
-- `close_room` closes the members of the room: each nested call finds the room closed.
use ccmeeting.Common.{
  ℕ, suc, ◌≡◌, refl, sym, ap, ◌∙◌, ◌⊎◌, inl, inr, true, false, none, some, [], ◌∷◌, ◌==◌, ==_self,
  Bool-cases, some_inj, none-ne-some, All,
}
use ccmeeting.Common.Table.{Table, lookup, erase, erase_absent, lookup-erase, All-map}
use ccmeeting.Common.Run.{Run, done, Ensures, ◌>>=◌}
use ccmeeting.Protocol.Json.{Json}
use ccmeeting.Network.Connection.{Connection}
use ccmeeting.Meeting.Room.{Room, Participant}
use ccmeeting.Meeting.World.{World, update_self}
use ccmeeting.Meeting.Closing.{
  close, close_members, remove_participant, on_connection_close, notify_close, clear_handler,
}
use ccmeeting.Meeting.Consistent.{Consistent}
use ccmeeting.Meeting.Consistent.Leave.{mark_closed}
use ccmeeting.Meeting.Consistent.Drop.{IsAbsent, dropped, dropped-Consistent}
use ccmeeting.Meeting.Consistent.Shut.{shut, lookup_nil}

-- While the members of the room are being closed; `gone` is a connection that is closed.
pub record IsShutting (gone ref : ℕ) (room : Room) (w : World) : Type 0 where
  pub consistent : Consistent (some ref) w
  pub at : w.heap ref ≡ some (shut room)
  pub entry : lookup room.room_id w.rooms ≡ some ref
  pub shut_down : (w.conns gone).closed ≡ true

-- A connection is in no room but the one that is being closed.
abbrev pub IsAnchored : ℕ → World → ℕ → Type 0
IsAnchored ref w c = (lookup c w.connection_room ≡ none) ⊎ (lookup c w.connection_room ≡ some ref)

dropped-closed :
    (c d : ℕ) (w : World) → (w.conns d).closed ≡ true → ((dropped c w).conns d).closed ≡ true
dropped-closed c d w h = elim (Bool-cases (c == d)) [
  | inl same ↦ rw (same, ==_self c) refl
  | inr other ↦ rw other h
]

dropped-IsAnchored : (ref c d : ℕ) (w : World) → IsAnchored ref w d → IsAnchored ref (dropped c w) d
dropped-IsAnchored ref c d w a = elim (Bool-cases (c == d)) [
  | inl same ↦ inl (lookup-erase c d w.connection_room ∙ rw same refl)
  | inr other ↦ elim a [
    | inl e ↦ inl (lookup-erase c d w.connection_room ∙ rw other e)
    | inr e ↦ inr (lookup-erase c d w.connection_room ∙ rw other e)
  ]
]

pub handler-mark_closed :
    (c : ℕ) (w : World)
    → (w.conns c).close_handler ≡ true
    → ((mark_closed c w).conns c).close_handler ≡ true
handler-mark_closed c w h = ap (λ (t : Connection). t.close_handler) (update_self w.conns c _) ∙ h

module _ (j : Json) where
  pub close-open :
      (fuel c : ℕ) (w : World)
      → (w.conns c).closed ≡ false
      → close j (suc fuel) c w ≡ notify_close j (close j fuel) c (mark_closed c w)
  unfolding close
  close-open fuel c w o = rw (o, close) refl

  pub notify_close-eq :
      (close : ℕ → World → Run World) (c : ℕ) (w : World)
      → (w.conns c).close_handler ≡ true
      → notify_close j close c w
        ≡ (on_connection_close j close c w >>= (λ w'. done (clear_handler c w')))
  unfolding notify_close
  notify_close-eq close c w h = rw (h, notify_close) refl

  notify_close-done :
      (close : ℕ → World → Run World) (c : ℕ) (w w' : World)
      → (w.conns c).close_handler ≡ true
      → on_connection_close j close c w ≡ done w'
      → notify_close j close c w ≡ done (clear_handler c w')
  notify_close-done close c w w' h e =
      notify_close-eq close c w h ∙ ap (λ m. m >>= (λ v. done (clear_handler c v))) e

module _ (j : Json) (gone ref : ℕ) (room : Room) where
  anchored-IsAbsent :
      (c : ℕ) (w : World) → IsShutting gone ref room w → IsAnchored ref w c → IsAbsent c w
  anchored-IsAbsent c w s a r ro p e l = elim a [
    | inl n ↦ none-ne-some (sym n ∙ (s.consistent.entered r ro c p e l).0)
    | inr q ↦
        let same : ref ≡ r = some_inj (sym q ∙ (s.consistent.entered r ro c p e l).0) in
        let room_is : shut room ≡ ro = some_inj (sym s.at ∙ ap w.heap same ∙ e) in
        lookup_nil c p (ap (λ (t : Room). lookup c t.participants) room_is ∙ l)
  ]

  dropped-IsShutting :
      (c : ℕ) (w : World)
      → IsShutting gone ref room w
      → IsAnchored ref w c
      → IsShutting gone ref room (dropped c w)
  dropped-IsShutting c w s a = record {
    consistent = dropped-Consistent (some ref) c w s.consistent (anchored-IsAbsent c w s a);
    at = s.at;
    entry = s.entry;
    shut_down = dropped-closed c gone w s.shut_down;
  }

  -- The nested call finds the room closed, so it does nothing to it.
  remove-shut :
      (close : ℕ → World → Run World) (c : ℕ) (w : World)
      → w.heap ref ≡ some (shut room)
      → remove_participant j close ref c w ≡ done w
  unfolding remove_participant
  remove-shut close c w at = rw (at, remove_participant) refl

  leave-shut :
      (close : ℕ → World → Run World) (c : ℕ) (w : World)
      → w.heap ref ≡ some (shut room)
      → IsAnchored ref w c
      → on_connection_close j close c w
        ≡ done (record w { connection_room = erase c w.connection_room })
  unfolding on_connection_close
  leave-shut close c w at a = elim a [
    | inl n ↦
        rw (n, on_connection_close)
          (ap (λ t. done (record w { connection_room = t }))
            (sym (erase_absent c w.connection_room n)))
    | inr q ↦ rw (q, on_connection_close) (remove-shut close c _ at)
  ]

  close-member :
      (fuel c : ℕ) (w : World)
      → IsShutting gone ref room w
      → IsAnchored ref w c
      → (w.conns c).closed ≡ false
      → close j (suc fuel) c w ≡ done (dropped c w)
  close-member fuel c w s a o =
      close-open j fuel c w o
      ∙ notify_close-done j (close j fuel) c (mark_closed c w) _
          (handler-mark_closed c w (s.consistent.handled c o))
          (leave-shut (close j fuel) c (mark_closed c w) s.at a)

  pub close_members-IsShutting :
      (fuel : ℕ) (t : Table Participant) (w : World)
      → IsShutting gone ref room w
      → All (λ e. IsAnchored ref w e.0) t
      → Ensures (IsShutting gone ref room) (close_members j (close j (suc fuel)) t w)
  unfolding close_members
  close_members-IsShutting fuel [] w s a = s
  close_members-IsShutting fuel ((c, p) ∷ t) w s a = elim (Bool-cases (w.conns c).closed) [
    | inl shut ↦ rw (shut, close_members) (close_members-IsShutting fuel t w s a.1)
    | inr o ↦
        rw (o, close-member fuel c w s a.0 o, close_members)
          (close_members-IsShutting fuel t (dropped c w) (dropped-IsShutting c w s a.0)
            (All-map _ _ (λ e h. dropped-IsAnchored ref c e.0 w h) t a.1))
  ]
