-- ===== src/Meeting/Consistent/Drop.antt =====
-- A connection closes that is in no room: it leaves the service's map.
use ccmeeting.Common.{
  ℕ, ◌≡◌, refl, sym, ap, ◌∙◌, ◌≢◌, inl, inr, true, Option, some, ◌==◌, ==_iff, Bool-cases,
  true-ne-false,
}
use ccmeeting.Common.Table.{lookup, erase, lookup-erase_ne, lookup-erase-eq-some, erase-Distinct}
use ccmeeting.Network.Connection.{Connection}
use ccmeeting.Meeting.Room.{Room, Participant}
use ccmeeting.Meeting.World.{update_keeps, World, update_ne, update_self}
use ccmeeting.Meeting.Closing.{clear_handler}
use ccmeeting.Meeting.Consistent.{Consistent}
use ccmeeting.Meeting.Consistent.Leave.{mark_closed}

-- The connection is no participant of any room.
abbrev pub IsAbsent : ℕ → World → Type 0
IsAbsent c w =
    (ref : ℕ) (room : Room) (p : Participant)
    → w.heap ref ≡ some room
    → lookup c room.participants ≢ some p

abbrev pub dropped : ℕ → World → World
dropped c w =
    let w1 = mark_closed c w in
    clear_handler c (record w1 { connection_room = erase c w1.connection_room })

-- The handler of a closed connection is cleared.
pub clear_handler-Consistent :
    (x : Option ℕ) (c : ℕ) (w : World)
    → (w.conns c).closed ≡ true
    → Consistent x w
    → Consistent x (clear_handler c w)
clear_handler-Consistent x c w shut v = record {
  is_room = v.is_room;
  owned = v.owned;
  listed = v.listed;
  live = v.live;
  called = v.called;
  mapped = v.mapped;
  entered = λ r ro d q e l. let (m, o) = v.entered r ro d q e l in (m, flag d ∙ o);
  handled = λ d o. elim (Bool-cases (c == d)) [
    | inl same ↦ absurd (
        true-ne-false
          (sym shut ∙ ap (λ k. (w.conns k).closed) ((==_iff c d).0 same) ∙ sym (flag d) ∙ o))
    | inr other ↦ rw other (v.handled d (sym (flag d) ∙ o))
  ];
  fresh_refs = v.fresh_refs;
  fresh_conns = λ d h. flag d ∙ v.fresh_conns d h;
  keys = v.keys;
  few_rooms = v.few_rooms;
  roomy = v.roomy;
}
  where
    flag : (d : ℕ) → ((clear_handler c w).conns d).closed ≡ (w.conns d).closed
    flag d = update_keeps w.conns c _ (λ t. t.closed) d refl

module _ (x : Option ℕ) (c : ℕ) (w : World) (v : Consistent x w) (absent : IsAbsent c w) where
  abbrev pub unmapped : World
  unmapped = let w1 = mark_closed c w in record w1 { connection_room = erase c w1.connection_room }

  pub unmapped-Consistent : Consistent x unmapped
  unmapped-Consistent = record {
    is_room = v.is_room;
    owned = v.owned;
    listed = v.listed;
    live = v.live;
    called = v.called;
    mapped = λ d r e. v.mapped d r (lookup-erase-eq-some c d w.connection_room e).1;
    entered = λ r ro d q e l.
        let (m, o) = v.entered r ro d q e l in
        let n : c ≢ d = λ h. absent r ro q e (ap (λ k. lookup k ro.participants) h ∙ l) in
        (
          lookup-erase_ne c d w.connection_room n ∙ m,
          ap (λ (t : Connection). t.closed) (update_ne w.conns c _ d n) ∙ o,
        );
    handled = λ d o. elim (Bool-cases (c == d)) [
      | inl same ↦ absurd (true-ne-false (sym (rw same refl) ∙ o))
      | inr other ↦ rw other (v.handled d (sym (rw other refl) ∙ o))
    ];
    fresh_refs = v.fresh_refs;
    fresh_conns = λ d h. elim (Bool-cases (c == d)) [
      | inl same ↦ rw same refl
      | inr other ↦ rw other (v.fresh_conns d h)
    ];
    keys = erase-Distinct c w.connection_room v.keys;
    few_rooms = v.few_rooms;
    roomy = v.roomy;
  }

  pub dropped-Consistent : Consistent x (dropped c w)
  dropped-Consistent =
      clear_handler-Consistent x c unmapped
        (ap (λ (t : Connection). t.closed) (update_self w.conns c _)) unmapped-Consistent
