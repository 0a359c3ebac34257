-- ===== src/Meeting/Consistent/Shut.antt =====
-- A room is marked as closed and emptied, at the start of `close_room`.
use ccmeeting.Common.{
  ℕ, ◌≡◌, refl, sym, ap, ◌∙◌, ◌≢◌, inl, inr, true, false, Option, none, some, [], arith, ◌==◌,
  ==_iff, Bool-cases, some_inj, none-ne-some, true-ne-false,
}
use ccmeeting.Common.Table.{lookup}
use ccmeeting.Meeting.Room.{Room, Participant, ServerConfig}
use ccmeeting.Meeting.World.{World, set_room, heap_elim, heap_find}
use ccmeeting.Meeting.Consistent.{Consistent, IsRoom, HasOwner, IsOpenFor, IsLive}

abbrev pub shut : Room → Room
shut room = record room { closed = true; timer = false; participants = [] }

pub lookup_nil : (c : ℕ) (p : Participant) → lookup c [] ≢ some p
unfolding lookup
lookup_nil c p h = none-ne-some h

shut-IsRoom : (config : ServerConfig) (room : Room) → IsRoom config room → IsRoom config (shut room)
shut-IsRoom config room v = record {
  sized = omega arith;
  capped = v.capped;
  sole_owner = λ a b p q la lb oa ob. absurd (lookup_nil a p la);
  emptied = λ e. refl;
}

-- What holds while no room is being closed holds while one is.
pub weaken-Consistent : (x : Option ℕ) (w : World) → Consistent none w → Consistent x w
weaken-Consistent x w v = record {
  is_room = v.is_room;
  owned = λ r ro e o _. v.owned r ro e o (λ h. none-ne-some h);
  listed = v.listed;
  live =
      λ id r e. let (ro, h, (i, o)) = v.live id r e in (ro, h, (i, λ _. o (λ h. none-ne-some h)));
  called = v.called;
  mapped = λ c r e. let (ro, h, o) = v.mapped c r e in (ro, h, λ _. o (λ h. none-ne-some h));
  entered = v.entered;
  handled = v.handled;
  fresh_refs = v.fresh_refs;
  fresh_conns = v.fresh_conns;
  keys = v.keys;
  few_rooms = v.few_rooms;
  roomy = v.roomy;
}

module _ (w : World) (ref : ℕ) (room : Room) (v : Consistent (some ref) w)
    (at : w.heap ref ≡ some room) where
  pub shut-Consistent : Consistent (some ref) (set_room ref (shut room) w)
  shut-Consistent = record {
    is_room =
        heap_elim (λ r ro. IsRoom w.config ro) w.heap ref (shut room)
          (shut-IsRoom w.config room (v.is_room ref room at)) (λ r ro n e. v.is_room r ro e);
    owned =
        heap_elim (λ r ro. ro.closed ≡ false → some ref ≢ some r → HasOwner ro) w.heap ref
          (shut room) (λ o n. absurd (n refl)) (λ r ro n e. v.owned r ro e);
    listed =
        heap_elim (λ r ro. ro.closed ≡ false → lookup ro.room_id w.rooms ≡ some r) w.heap ref
          (shut room) (λ o. absurd (true-ne-false o)) (λ r ro n e. v.listed r ro e);
    live = λ id r e.
        let (ro, h, (i, o)) = v.live id r e in
        heap_find (λ k ro. IsLive (some ref) id k ro) w.heap ref (shut room) r
          (λ same. (
            sym (ap (λ (t : Room). t.room_id) (some_inj (sym h ∙ ap w.heap (sym same) ∙ at))) ∙ i,
            λ n. absurd (n refl),
          ))
          (λ other. (ro, h, (i, o)));
    called =
        heap_elim (λ r ro. ro.close_callback ≡ true) w.heap ref (shut room) (v.called ref room at)
          (λ r ro n e. v.called r ro e);
    mapped = λ c r e.
        let (ro, h, o) = v.mapped c r e in
        heap_find (λ k ro. some ref ≢ some k → IsOpenFor c ro) w.heap ref (shut room) r
          (λ same n. absurd (n refl)) (λ other. (ro, h, o));
    entered = λ r ro c p e l.
        heap_elim
          (λ k t.
            (c : ℕ) (p : Participant)
            → lookup c t.participants ≡ some p
            → (lookup c w.connection_room ≡ some k) × ((w.conns c).closed ≡ false))
          w.heap ref (shut room) (λ c p l. absurd (lookup_nil c p l))
          (λ r ro n e c p l. v.entered r ro c p e l) r ro e c p l;
    handled = v.handled;
    fresh_refs = λ r h. elim (Bool-cases (ref == r)) [
      | inl same ↦
          absurd
            (none-ne-some (sym (v.fresh_refs r h) ∙ ap w.heap (sym ((==_iff ref r).0 same)) ∙ at))
      | inr other ↦ rw other (v.fresh_refs r h)
    ];
    fresh_conns = v.fresh_conns;
    keys = v.keys;
    few_rooms = v.few_rooms;
    roomy = v.roomy;
  }
