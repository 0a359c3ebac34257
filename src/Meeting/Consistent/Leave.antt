-- ===== src/Meeting/Consistent/Leave.antt =====
-- A connection closes: it leaves the service's map and the participants of its room.
use ccmeeting.Common.{
  ℕ, ◌≤◌, ◌≡◌, refl, sym, ap, ◌∙◌, ◌≢◌, inl, inr, true, false, Option, none, some, arith, ◌==◌,
  ==_iff, Bool-cases, some_inj, none-ne-some, true-ne-false,
}
use ccmeeting.Common.Table.{
  lookup, erase, lookup-erase_ne, erase-Distinct, lookup-erase-eq-some, length-erase,
}
use ccmeeting.Network.Connection.{Connection}
use ccmeeting.Meeting.Room.{Room, Participant, ServerConfig}
use ccmeeting.Meeting.World.{World, set_conn, set_room, update, update_ne, heap_elim, heap_find}
use ccmeeting.Meeting.Consistent.{Consistent, IsRoom, HasOwner, IsOpenFor, IsLive}

-- The room without the participant.
abbrev pub without : ℕ → Room → Room
without c room = record room { participants = erase c room.participants }

pub without-IsRoom :
    (config : ServerConfig) (c : ℕ) (room : Room)
    → IsRoom config room
    → IsRoom config (without c room)
unfolding erase
without-IsRoom config c room v = record {
  sized = omega (arith, v.sized, length-erase c room.participants);
  capped = v.capped;
  sole_owner = λ a b p q la lb oa ob.
      v.sole_owner a b p q (lookup-erase-eq-some c a room.participants la).1
        (lookup-erase-eq-some c b room.participants lb).1 oa ob;
  emptied = λ e. ap (erase c) (v.emptied e);
}

abbrev pub mark_closed : ℕ → World → World
mark_closed c w = set_conn c (record (w.conns c) { closed = true }) w

-- What `close` has done when the connection's entries are gone.
abbrev pub left : ℕ → ℕ → Room → World → World
left c ref room w =
    let w1 = mark_closed c w in
    set_room ref (without c room) (record w1 { connection_room = erase c w1.connection_room })

module _ (w : World) (c ref : ℕ) (room : Room) (p : Participant) (y : Option ℕ)
    (v : Consistent none w) (at : w.heap ref ≡ some room)
    (member : lookup c room.participants ≡ some p) (owner : p.is_owner ≡ true → y ≡ some ref) where
  mapped_here : lookup c w.connection_room ≡ some ref
  mapped_here = (v.entered ref room c p at member).0

  left-owned : room.closed ≡ false → y ≢ some ref → HasOwner (without c room)
  left-owned o nx =
      let (d, q, l, b) = v.owned ref room at o (λ e. none-ne-some e) in
      (d, q, lookup-erase_ne c d room.participants (λ e. nx (owner (cc (e, l, b, member)))) ∙ l, b)

  left-mapped :
      (d r : ℕ)
      → c ≢ d
      → lookup d w.connection_room ≡ some r
      → (ro : Room) × (update w.heap ref (some (without c room)) r ≡ some ro)
        × (y ≢ some r → IsOpenFor d ro)
  left-mapped d r n e =
      let (ro, h, f) = v.mapped d r e in
      let (o, (q, l)) = f (λ h. none-ne-some h) in
      heap_find (λ k ro. y ≢ some k → IsOpenFor d ro) w.heap ref (without c room) r
        (λ same _.
          let rr : ro ≡ room = some_inj (sym h ∙ ap w.heap (sym same) ∙ at) in
          (
            sym (ap (λ (t : Room). t.closed) rr) ∙ o,
            (
              q,
              lookup-erase_ne c d room.participants n
                  ∙ ap (λ (t : Room). lookup d t.participants) (sym rr)
                  ∙ l,
            ),
          ))
        (λ other. (ro, h, λ _. (o, (q, l))))

  left-entered :
      (r : ℕ) (ro : Room)
      → ref ≢ r
      → w.heap r ≡ some ro
      → (d : ℕ) (q : Participant) → lookup d ro.participants ≡ some q
      → (lookup d (erase c w.connection_room) ≡ some r)
        × ((update w.conns c (record (w.conns c) { closed = true }) d).closed ≡ false)
  left-entered r ro n e d q l =
      let (m, o) = v.entered r ro d q e l in
      let cd : c ≢ d =
        λ h. n (some_inj (sym mapped_here ∙ ap (λ k. lookup k w.connection_room) h ∙ m)) in
      (
        lookup-erase_ne c d w.connection_room cd ∙ m,
        ap (λ (t : Connection). t.closed) (update_ne w.conns c _ d cd) ∙ o,
      )

  left-entered_here :
      (d : ℕ) (q : Participant)
      → lookup d (erase c room.participants) ≡ some q
      → (lookup d (erase c w.connection_room) ≡ some ref)
        × ((update w.conns c (record (w.conns c) { closed = true }) d).closed ≡ false)
  left-entered_here d q l =
      let (cd, l') = lookup-erase-eq-some c d room.participants l in
      let (m, o) = v.entered ref room d q at l' in
      (
        lookup-erase_ne c d w.connection_room cd ∙ m,
        ap (λ (t : Connection). t.closed) (update_ne w.conns c _ d cd) ∙ o,
      )

  left-rooms :
      (id r : ℕ)
      → lookup id w.rooms ≡ some r
      → (ro : Room) × (update w.heap ref (some (without c room)) r ≡ some ro) × IsLive y id r ro
  left-rooms id r e =
      let (ro, h, (i, o)) = v.live id r e in
      heap_find (λ k ro. IsLive y id k ro) w.heap ref (without c room) r
        (λ same.
          let rr : ro ≡ room = some_inj (sym h ∙ ap w.heap (sym same) ∙ at) in
          (
            sym (ap (λ (t : Room). t.room_id) rr) ∙ i,
            λ _. sym (ap (λ (t : Room). t.closed) rr) ∙ o (λ h. none-ne-some h),
          ))
        (λ other. (ro, h, (i, λ _. o (λ h. none-ne-some h))))

  left-handled :
      (d : ℕ)
      → (update w.conns c (record (w.conns c) { closed = true }) d).closed ≡ false
      → (update w.conns c (record (w.conns c) { closed = true }) d).close_handler ≡ true
  left-handled d o = elim (Bool-cases (c == d)) [
    | inl same ↦ absurd (true-ne-false (sym (rw same refl) ∙ o))
    | inr other ↦ rw other (v.handled d (sym (rw other refl) ∙ o))
  ]

  left-fresh_conns :
      (d : ℕ)
      → w.next_connection_id ≤ d
      → (update w.conns c (record (w.conns c) { closed = true }) d).closed ≡ true
  left-fresh_conns d h = elim (Bool-cases (c == d)) [
    | inl same ↦ rw same refl
    | inr other ↦ rw other (v.fresh_conns d h)
  ]

  pub left-Consistent : Consistent y (left c ref room w)
  left-Consistent = record {
    is_room =
        heap_elim (λ r ro. IsRoom w.config ro) w.heap ref (without c room)
          (without-IsRoom w.config c room (v.is_room ref room at)) (λ r ro n e. v.is_room r ro e);
    owned =
        heap_elim (λ r ro. ro.closed ≡ false → y ≢ some r → HasOwner ro) w.heap ref (without c room)
          left-owned (λ r ro n e o nx. v.owned r ro e o (λ h. none-ne-some h));
    listed =
        heap_elim (λ r ro. ro.closed ≡ false → lookup ro.room_id w.rooms ≡ some r) w.heap ref
          (without c room) (λ o. v.listed ref room at o) (λ r ro n e. v.listed r ro e);
    live = left-rooms;
    called =
        heap_elim (λ r ro. ro.close_callback ≡ true) w.heap ref (without c room)
          (v.called ref room at) (λ r ro n e. v.called r ro e);
    mapped =
        λ d r e. let f = lookup-erase-eq-some c d w.connection_room e in left-mapped d r f.0 f.1;
    entered = λ r ro d q e l.
        heap_elim
          (λ k t.
            (d : ℕ) (q : Participant)
            → lookup d t.participants ≡ some q
            → (lookup d (erase c w.connection_room) ≡ some k)
              × ((update w.conns c (record (w.conns c) { closed = true }) d).closed ≡ false))
          w.heap ref (without c room) left-entered_here left-entered r ro e d q l;
    handled = left-handled;
    fresh_refs = λ r h. elim (Bool-cases (ref == r)) [
      | inl same ↦
          absurd
            (none-ne-some (sym (v.fresh_refs r h) ∙ ap w.heap (sym ((==_iff ref r).0 same)) ∙ at))
      | inr other ↦ rw other (v.fresh_refs r h)
    ];
    fresh_conns = left-fresh_conns;
    keys = erase-Distinct c w.connection_room v.keys;
    few_rooms = v.few_rooms;
    roomy = v.roomy;
  }
