-- ===== src/Meeting/Consistent/Rewrite.antt =====
-- A packet to a room rewrites the room in place.
use ccmeeting.Common.{
  ℕ, ◌≤◌, ◌≡◌, refl, sym, ap, ◌∙◌, ◌≢◌, inl, inr, Bool, true, false, Option, none, some, List, [],
  ◌∷◌, arith, ◌==◌, ==_iff, Bool-cases, some_inj, none-ne-some, subst, length,
}
use ccmeeting.Common.Table.{lookup}
use ccmeeting.Meeting.Room.{Room, Participant, ServerConfig}
use ccmeeting.Meeting.World.{World, set_room, heap_elim, heap_find}
use ccmeeting.Meeting.Consistent.{Consistent, IsRoom, HasOwner, IsMember, IsOpenFor, IsLive}
use ccmeeting.Meeting.Relay.Keeps.{RoomKeeps, owner_flag}

-- The entry behind a flag.
flag-found :
    (o : Option Participant) (b : Bool)
    → owner_flag o ≡ some b
    → (p : Participant) × (o ≡ some p) × (p.is_owner ≡ b)
flag-found none b h = cc
flag-found (some p) b h = (p, refl, some_inj h)

length_zero : (t : List (ℕ × Participant)) → length t ≡ 0 → t ≡ []
length_zero [] h = refl
length_zero (e ∷ t) h = absurd (omega arith)

module _ (room room' : Room) (k : RoomKeeps room room') where
  -- A participant afterwards was one before, with the same ownership, and the other way round.
  member_before :
      (c : ℕ) (p : Participant)
      → lookup c room'.participants ≡ some p
      → (q : Participant) × (lookup c room.participants ≡ some q) × (q.is_owner ≡ p.is_owner)
  member_before c p l =
      flag-found (lookup c room.participants) p.is_owner (sym (k.same_owners c) ∙ ap owner_flag l)

  member_after :
      (c : ℕ) (p : Participant)
      → lookup c room.participants ≡ some p
      → (q : Participant) × (lookup c room'.participants ≡ some q) × (q.is_owner ≡ p.is_owner)
  member_after c p l =
      flag-found (lookup c room'.participants) p.is_owner (k.same_owners c ∙ ap owner_flag l)

  keeps-IsRoom : (config : ServerConfig) → IsRoom config room → IsRoom config room'
  keeps-IsRoom config v = record {
    sized =
        subst (λ n. n ≤ room'.options.max_participants) (sym k.same_size)
          (subst (λ o. length room.participants ≤ o.max_participants) (sym k.same_options) v.sized);
    capped =
        subst (λ o. o.max_participants ≤ config.max_participants_per_room) (sym k.same_options)
          v.capped;
    sole_owner = λ a b p q la lb oa ob.
        let (p', la', oa') = member_before a p la in
        let (q', lb', ob') = member_before b q lb in
        v.sole_owner a b p' q' la' lb' (oa' ∙ oa) (ob' ∙ ob);
    emptied = λ e.
        length_zero room'.participants
          (k.same_size ∙ ap (λ t. length t) (v.emptied (sym k.same_closed ∙ e)));
  }

  keeps-HasOwner : HasOwner room → HasOwner room'
  keeps-HasOwner (c, p, l, o) = let (q, l', o') = member_after c p l in (c, q, l', o' ∙ o)

  keeps-IsMember : (c : ℕ) → IsMember c room → IsMember c room'
  keeps-IsMember c (p, l) = let (q, l', o) = member_after c p l in (q, l')

module _ (x : Option ℕ) (w : World) (ref : ℕ) (room room' : Room) (v : Consistent x w)
    (at : w.heap ref ≡ some room) (k : RoomKeeps room room') where
  same_room : (r : ℕ) (ro : Room) → ref ≡ r → w.heap r ≡ some ro → room ≡ ro
  same_room r ro same h = some_inj (sym at ∙ ap w.heap same ∙ h)

  pub set_room-Consistent : Consistent x (set_room ref room' w)
  set_room-Consistent = record {
    is_room =
        heap_elim (λ r ro. IsRoom w.config ro) w.heap ref room'
          (keeps-IsRoom room room' k w.config (v.is_room ref room at))
          (λ r ro n e. v.is_room r ro e);
    owned =
        heap_elim (λ r ro. ro.closed ≡ false → x ≢ some r → HasOwner ro) w.heap ref room'
          (λ o n. keeps-HasOwner room room' k (v.owned ref room at (sym k.same_closed ∙ o) n))
          (λ r ro n e. v.owned r ro e);
    listed =
        heap_elim (λ r ro. ro.closed ≡ false → lookup ro.room_id w.rooms ≡ some r) w.heap ref room'
          (λ o. ap (λ i. lookup i w.rooms) k.same_id ∙ v.listed ref room at (sym k.same_closed ∙ o))
          (λ r ro n e. v.listed r ro e);
    live = λ id r e.
        let (ro, h, (i, o)) = v.live id r e in
        heap_find (λ k ro. IsLive x id k ro) w.heap ref room' r
          (λ same.
            let q = same_room r ro same h in
            (
              k.same_id ∙ ap (λ (t : Room). t.room_id) q ∙ i,
              λ n.
                  k.same_closed
                  ∙ ap (λ (t : Room). t.closed) q
                  ∙ o (λ m. n (m ∙ ap some (sym same))),
            ))
          (λ other. (ro, h, (i, o)));
    called =
        heap_elim (λ r ro. ro.close_callback ≡ true) w.heap ref room'
          (k.same_callback ∙ v.called ref room at) (λ r ro n e. v.called r ro e);
    mapped = λ c r e.
        let (ro, h, o) = v.mapped c r e in
        heap_find (λ k ro. x ≢ some k → IsOpenFor c ro) w.heap ref room' r
          (λ same n.
            let q = same_room r ro same h in
            let (opened, member) = o (λ m. n (m ∙ ap some (sym same))) in
            (
              k.same_closed ∙ ap (λ (t : Room). t.closed) q ∙ opened,
              keeps-IsMember room room' k c (subst (IsMember c) (sym q) member),
            ))
          (λ other. (ro, h, o));
    entered = λ r ro c p e l.
        heap_elim
          (λ k t.
            (c : ℕ) (p : Participant)
            → lookup c t.participants ≡ some p
            → (lookup c w.connection_room ≡ some k) × ((w.conns c).closed ≡ false))
          w.heap ref room'
          (λ c p l.
            let (q, l', o) = member_before room room' k c p l in v.entered ref room c q at l')
          (λ r ro n e c p l. v.entered r ro c p e l) r ro e c p l;
    handled = v.handled;
    fresh_refs = λ r h. elim (Bool-cases (ref == r)) [
      | inl same ↦
          absurd
            (none-ne-some (sym (v.fresh_refs r h) ∙ ap w.heap (sym ((==_iff ref r).0 same)) ∙ at))
      | inr other ↦ rw other (v.fresh_refs r h)
    ];
    fresh_conns = v.fresh_conns;
    keys = v.keys;
    few_rooms = v.few_rooms;
    roomy = v.roomy;
  }
