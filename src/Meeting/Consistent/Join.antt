-- ===== src/Meeting/Consistent/Join.antt =====
-- A connection joins a room.
use ccmeeting.Common.{
  ℕ, ◌<◌, ◌≡◌, refl, sym, ap, ◌∙◌, ◌≢◌, inl, inr, true, false, none, some, arith, ◌==◌, ==_iff,
  Bool-cases, Option-cases, some_inj, none-ne-some, true-ne-false, subst, length,
}
use ccmeeting.Common.Table.{
  lookup, emplace, lookup-emplace_self, lookup-emplace_ne, lookup-emplace-eq-some, emplace-Distinct,
  length-emplace,
}
use ccmeeting.Meeting.Room.{Room, Participant}
use ccmeeting.Meeting.World.{World, set_room, heap_elim, heap_find}
use ccmeeting.Meeting.Consistent.{Consistent, IsRoom, HasOwner, IsMember, IsOpenFor, IsLive}

abbrev pub with_participant : ℕ → Participant → Room → Room
with_participant c p room = record room { participants = emplace c p room.participants }

-- The state in which `handle_join_meeting` answers.
abbrev pub joined_world : ℕ → ℕ → Participant → Room → World → World
joined_world c ref p room w = record (set_room ref (with_participant c p room) w) {
  connection_room = emplace c ref w.connection_room;
}

module _ (c ref : ℕ) (p : Participant) (room : Room) (w : World) (v : Consistent none w)
    (at : w.heap ref ≡ some room) (open_room : room.closed ≡ false)
    (lobby : lookup c w.connection_room ≡ none) (opened : (w.conns c).closed ≡ false)
    (guest : p.is_owner ≡ false)
    (space : length room.participants < room.options.max_participants) where
  outside : lookup c room.participants ≡ none
  outside = elim (Option-cases (lookup c room.participants)) [
    | inl n ↦ n
    | inr (q, l) ↦ absurd (none-ne-some (sym lobby ∙ (v.entered ref room c q at l).0))
  ]

  old_entry :
      (d : ℕ) (q : Participant)
      → lookup d room.participants ≡ some q
      → lookup d (emplace c p room.participants) ≡ some q
  old_entry d q l =
      lookup-emplace_ne c d p room.participants outside
        (λ e. none-ne-some (sym outside ∙ ap (λ k. lookup k room.participants) e ∙ l))
      ∙ l

  old_mapping :
      (d r : ℕ)
      → lookup d w.connection_room ≡ some r
      → lookup d (emplace c ref w.connection_room) ≡ some r
  old_mapping d r l =
      lookup-emplace_ne c d ref w.connection_room lobby
        (λ e. none-ne-some (sym lobby ∙ ap (λ k. lookup k w.connection_room) e ∙ l))
      ∙ l

  owner_before :
      (d : ℕ) (q : Participant)
      → lookup d (emplace c p room.participants) ≡ some q
      → q.is_owner ≡ true
      → lookup d room.participants ≡ some q
  owner_before d q l o = elim (lookup-emplace-eq-some c d p room.participants outside l) [
    | inl (_, e) ↦
        absurd (true-ne-false (sym o ∙ ap (λ (t : Participant). t.is_owner) (sym e) ∙ guest))
    | inr (_, l') ↦ l'
  ]

  with_participant-IsRoom : IsRoom w.config (with_participant c p room)
  with_participant-IsRoom = record {
    sized = omega (arith, length-emplace c p room.participants, space);
    capped = (v.is_room ref room at).capped;
    sole_owner = λ a b q r la lb oa ob.
        (v.is_room ref room at).sole_owner a b q r (owner_before a q la oa) (owner_before b r lb ob)
          oa ob;
    emptied = λ e. absurd (true-ne-false (sym e ∙ open_room));
  }

  same_room : (r : ℕ) (ro : Room) → ref ≡ r → w.heap r ≡ some ro → room ≡ ro
  same_room r ro same h = some_inj (sym at ∙ ap w.heap same ∙ h)

  joined-mapped :
      (d r : ℕ)
      → lookup d (emplace c ref w.connection_room) ≡ some r
      → (ro : Room) × ((joined_world c ref p room w).heap r ≡ some ro)
        × (none ≢ some r → IsOpenFor d ro)
  joined-mapped d r e = elim (lookup-emplace-eq-some c d ref w.connection_room lobby e) [
    | inl (q, n) ↦ (
      with_participant c p room,
      rw ((==_iff ref r).1 n) refl,
      λ _. (
        open_room,
        subst (λ k. IsMember k (with_participant c p room)) q
            (p, lookup-emplace_self c p room.participants outside),
      ),
    )
    | inr (q, l) ↦
        let (ro, h, o) = v.mapped d r l in
        heap_find (λ k ro. none ≢ some k → IsOpenFor d ro) w.heap ref (with_participant c p room) r
          (λ same n.
            let (u, l') = (o (λ m. none-ne-some m)).1 in
            (
              open_room,
              (
                u,
                old_entry d u
                    (ap (λ (t : Room). lookup d t.participants) (same_room r ro same h) ∙ l'),
              ),
            ))
          (λ other. (ro, h, o))
  ]

  pub joined_world-Consistent : Consistent none (joined_world c ref p room w)
  joined_world-Consistent = record {
    is_room =
        heap_elim (λ r ro. IsRoom w.config ro) w.heap ref (with_participant c p room)
          with_participant-IsRoom (λ r ro n e. v.is_room r ro e);
    owned =
        heap_elim (λ r ro. ro.closed ≡ false → none ≢ some r → HasOwner ro) w.heap ref
          (with_participant c p room)
          (λ o n. let (d, q, l, b) = v.owned ref room at o n in (d, q, old_entry d q l, b))
          (λ r ro n e. v.owned r ro e);
    listed =
        heap_elim (λ r ro. ro.closed ≡ false → lookup ro.room_id w.rooms ≡ some r) w.heap ref
          (with_participant c p room) (λ o. v.listed ref room at o) (λ r ro n e. v.listed r ro e);
    live = λ id r e.
        let (ro, h, (i, o)) = v.live id r e in
        heap_find (λ k ro. IsLive none id k ro) w.heap ref (with_participant c p room) r
          (λ same. (ap (λ (t : Room). t.room_id) (same_room r ro same h) ∙ i, λ _. open_room))
          (λ other. (ro, h, (i, o)));
    called =
        heap_elim (λ r ro. ro.close_callback ≡ true) w.heap ref (with_participant c p room)
          (v.called ref room at) (λ r ro n e. v.called r ro e);
    mapped = joined-mapped;
    entered = λ r ro d q e l.
        heap_elim
          (λ k t.
            (d : ℕ) (q : Participant)
            → lookup d t.participants ≡ some q
            → (lookup d (emplace c ref w.connection_room) ≡ some k) × ((w.conns d).closed ≡ false))
          w.heap ref (with_participant c p room)
          (λ d q l. elim (lookup-emplace-eq-some c d p room.participants outside l) [
            | inl (e, _) ↦ (
              ap (λ k. lookup k (emplace c ref w.connection_room)) (sym e)
                  ∙ lookup-emplace_self c ref w.connection_room lobby,
              ap (λ k. (w.conns k).closed) (sym e) ∙ opened,
            )
            | inr (_, l') ↦ let (m, o) = v.entered ref room d q at l' in (old_mapping d ref m, o)
          ])
          (λ k t n e d q l. let (m, o) = v.entered k t d q e l in (old_mapping d k m, o)) r ro e d q
          l;
    handled = v.handled;
    fresh_refs = λ r h. elim (Bool-cases (ref == r)) [
      | inl same ↦
          absurd
            (none-ne-some (sym (v.fresh_refs r h) ∙ ap w.heap (sym ((==_iff ref r).0 same)) ∙ at))
      | inr other ↦ rw other (v.fresh_refs r h)
    ];
    fresh_conns = v.fresh_conns;
    keys = emplace-Distinct c ref w.connection_room lobby v.keys;
    few_rooms = v.few_rooms;
    roomy = v.roomy;
  }
