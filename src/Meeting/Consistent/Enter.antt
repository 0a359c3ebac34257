-- ===== src/Meeting/Consistent/Enter.antt =====
-- A new room and its owner are entered into the tables.
use ccmeeting.Common.{
  ℕ, ◌+◌, ◌<◌, ◌≡◌, refl, sym, ap, ◌∙◌, ◌≢◌, inl, inr, true, false, Option, none, some, arith,
  ==_iff, ==_self, none-ne-some, true-ne-false, subst, length,
}
use ccmeeting.Common.Table.{
  lookup, emplace, lookup-emplace_self, lookup-emplace_ne, lookup-emplace-eq-some, emplace-Distinct,
  length-emplace,
}
use ccmeeting.Protocol.Json.{Json}
use ccmeeting.Meeting.Room.{Room, Participant}
use ccmeeting.Meeting.World.{World, update, update_ne, heap_elim}
use ccmeeting.Meeting.Manager.{add_room, get_room}
use ccmeeting.Meeting.Service.{enter_created}
use ccmeeting.Meeting.Consistent.{Consistent, IsRoom, HasOwner, IsMember, IsOpenFor, IsLive}
use ccmeeting.Meeting.Consistent.Found.{IsNew}

abbrev pub with_callback : Room → Room
with_callback room = record room { close_callback = true }

-- The state in which `handle_create_meeting` answers.
abbrev pub founded : ℕ → ℕ → ℕ → Room → World → World
founded c id next room w = record w {
  next_ref = w.next_ref + 1;
  heap = update (update w.heap w.next_ref (some room)) w.next_ref (some (with_callback room));
  rooms = emplace id w.next_ref w.rooms;
  next_room_id = next;
  connection_room = emplace c w.next_ref w.connection_room;
}

pub enter_created-add_room :
    (j : Json) (c id next : ℕ) (room : Room) (w : World)
    → lookup id w.rooms ≡ none
    → enter_created j c id (add_room id next room w) ≡ founded c id next room w
unfolding enter_created get_room add_room
enter_created-add_room j c id next room w free =
    rw (lookup-emplace_self id w.next_ref w.rooms free, ==_self w.next_ref, enter_created, get_room)
      refl

module _ (c id next : ℕ) (room : Room) (w : World) (v : Consistent none w)
    (new : IsNew w.config id c room) (free : lookup id w.rooms ≡ none)
    (lobby : lookup c w.connection_room ≡ none) (opened : (w.conns c).closed ≡ false)
    (few : length w.rooms < w.config.max_rooms) where
  abbrev new_heap : ℕ → Option Room
  new_heap = update w.heap w.next_ref (some room)

  old_room : (r : ℕ) (ro : Room) → w.next_ref ≢ r → new_heap r ≡ some ro → w.heap r ≡ some ro
  old_room r ro n e = sym (update_ne w.heap w.next_ref (some room) r n) ∙ e

  old_ref : (r : ℕ) (ro : Room) → w.heap r ≡ some ro → w.next_ref ≢ r
  old_ref r ro e n = none-ne-some (sym (v.fresh_refs w.next_ref (omega arith)) ∙ ap w.heap n ∙ e)

  -- A room of before is still there.
  still_there :
      (Q : ℕ → Room → Type 0) (r : ℕ)
      → (ro : Room) × (w.heap r ≡ some ro) × Q r ro
      → (ro : Room) × ((founded c id next room w).heap r ≡ some ro) × Q r ro
  still_there Q r (ro, h, q) =
      let n = old_ref r ro h in
      (
        ro,
        update_ne new_heap w.next_ref (some (with_callback room)) r n
            ∙ update_ne w.heap w.next_ref (some room) r n
            ∙ h,
        q,
      )

  new_there :
      (Q : ℕ → Room → Type 0) (r : ℕ)
      → w.next_ref ≡ r
      → Q r (with_callback room)
      → (ro : Room) × ((founded c id next room w).heap r ≡ some ro) × Q r ro
  new_there Q r n q = (with_callback room, rw ((==_iff w.next_ref r).1 n) refl, q)

  with_callback-IsRoom : IsRoom w.config (with_callback room)
  with_callback-IsRoom = record {
    sized = omega (arith, new.one, new.fits);
    capped = new.capped;
    sole_owner = λ a b p q la lb oa ob. sym (new.alone a p la) ∙ new.alone b q lb;
    emptied = λ e. absurd (true-ne-false (sym e ∙ new.new_open));
  }

  owner_inside : IsMember c room
  owner_inside =
      let (d, p, l, o) = new.owner_there in
      (p, ap (λ k. lookup k room.participants) (new.alone d p l) ∙ l)

  pub founded-Consistent : Consistent none (founded c id next room w)
  founded-Consistent = record {
    is_room =
        heap_elim (λ r ro. IsRoom w.config ro) new_heap w.next_ref (with_callback room)
          with_callback-IsRoom (λ r ro n e. v.is_room r ro (old_room r ro n e));
    owned =
        heap_elim (λ r ro. ro.closed ≡ false → none ≢ some r → HasOwner ro) new_heap w.next_ref
          (with_callback room) (λ _ _. new.owner_there)
          (λ r ro n e. v.owned r ro (old_room r ro n e));
    listed =
        heap_elim
          (λ r ro. ro.closed ≡ false → lookup ro.room_id (emplace id w.next_ref w.rooms) ≡ some r)
          new_heap w.next_ref (with_callback room)
          (λ _.
            ap (λ i. lookup i (emplace id w.next_ref w.rooms)) new.new_id
            ∙ lookup-emplace_self id w.next_ref w.rooms free)
          (λ r ro n e o.
            let l = v.listed r ro (old_room r ro n e) o in
            lookup-emplace_ne id ro.room_id w.next_ref w.rooms free
              (λ q. none-ne-some (sym free ∙ ap (λ i. lookup i w.rooms) q ∙ l))
            ∙ l);
    live = λ i r e. elim (lookup-emplace-eq-some id i w.next_ref w.rooms free e) [
      | inl (q, n) ↦ new_there (λ r ro. IsLive none i r ro) r n (new.new_id ∙ q, λ _. new.new_open)
      | inr (q, l) ↦ still_there (λ r ro. IsLive none i r ro) r (v.live i r l)
    ];
    called =
        heap_elim (λ r ro. ro.close_callback ≡ true) new_heap w.next_ref (with_callback room) refl
          (λ r ro n e. v.called r ro (old_room r ro n e));
    mapped = λ d r e. elim (lookup-emplace-eq-some c d w.next_ref w.connection_room lobby e) [
      | inl (q, n) ↦
          new_there (λ r ro. none ≢ some r → IsOpenFor d ro) r n
            (λ _. (new.new_open, subst (λ k. IsMember k room) q owner_inside))
      | inr (q, l) ↦ still_there (λ r ro. none ≢ some r → IsOpenFor d ro) r (v.mapped d r l)
    ];
    entered = λ r ro d p e l.
        heap_elim
          (λ k t.
            (d : ℕ) (p : Participant)
            → lookup d t.participants ≡ some p
            → (lookup d (emplace c w.next_ref w.connection_room) ≡ some k)
              × ((w.conns d).closed ≡ false))
          new_heap w.next_ref (with_callback room)
          (λ d p l.
            let q = new.alone d p l in
            (
              ap (λ k. lookup k (emplace c w.next_ref w.connection_room)) (sym q)
                  ∙ lookup-emplace_self c w.next_ref w.connection_room lobby,
              ap (λ k. (w.conns k).closed) (sym q) ∙ opened,
            ))
          (λ k t n e d p l.
            let (m, o) = v.entered k t d p (old_room k t n e) l in
            (
              lookup-emplace_ne c d w.next_ref w.connection_room lobby
                    (λ q. none-ne-some (sym lobby ∙ ap (λ i. lookup i w.connection_room) q ∙ m))
                  ∙ m,
              o,
            ))
          r ro e d p l;
    handled = v.handled;
    fresh_refs = λ r h.
        let n : w.next_ref ≢ r = λ q. absurd (omega (arith, q, h)) in
        update_ne new_heap w.next_ref (some (with_callback room)) r n
        ∙ update_ne w.heap w.next_ref (some room) r n
        ∙ v.fresh_refs r (omega (arith, h));
    fresh_conns = v.fresh_conns;
    keys = emplace-Distinct c w.next_ref w.connection_room lobby v.keys;
    few_rooms = omega (arith, length-emplace id w.next_ref w.rooms, few);
    roomy = v.roomy;
  }
