-- ===== src/Meeting/Consistent/Cleanup.antt =====
-- The end of `close_room`: `cleanup_room` forgets the room that has been closed.
use ccmeeting.Common.{
  ℕ, ◌≡◌, refl, sym, ap, ◌∙◌, ◌≢◌, ◌⊎◌, inl, inr, true, false, Option, none, some, [], ◌∷◌, arith,
  ◌==◌, ==_iff, Bool-cases, Option-cases, some_inj, none-ne-some, true-ne-false, subst,
}
use ccmeeting.Common.Table.{Table, lookup, Distinct}
use ccmeeting.Meeting.Room.{Room}
use ccmeeting.Meeting.Closing.{forget_room}
use ccmeeting.Common.Table.{erase, lookup-erase-eq-some, lookup-erase_ne, length-erase}
use ccmeeting.Meeting.Room.{Participant}
use ccmeeting.Meeting.World.{World}
use ccmeeting.Meeting.Closing.{cleanup_room, remove_room}
use ccmeeting.Meeting.Consistent.{Consistent, IsOpenFor, IsLive}
use ccmeeting.Meeting.Consistent.Shut.{lookup_nil}

module _ (id : ℕ) (heap : ℕ → Option Room) where
  -- What the loop does with one entry.
  forget_keeps :
      (c ref : ℕ) (t : Table ℕ)
      → ((forget_room id heap ((c, ref) ∷ t) ≡ (c, ref) ∷ forget_room id heap t)
          × ((room : Room) → heap ref ≡ some room → room.room_id ≢ id))
        ⊎ ((room : Room) × (heap ref ≡ some room)
            × (room.room_id ≡ id)
            × (forget_room id heap ((c, ref) ∷ t) ≡ forget_room id heap t))
  unfolding forget_room
  forget_keeps c ref t = elim (Option-cases (heap ref)) [
    | inl e ↦ inl (rw (e, forget_room) refl, λ room h. absurd (none-ne-some (sym e ∙ h)))
    | inr (room, e) ↦ elim (Bool-cases (room.room_id == id)) [
      | inl q ↦ inr (room, e, (==_iff _ id).0 q, rw (e, q, forget_room) refl)
      | inr q ↦ inl (
        rw (e, q, forget_room) refl,
        λ other h n.
            true-ne-false
              (sym ((==_iff _ id).1 (ap (λ (t : Room). t.room_id) (some_inj (sym e ∙ h)) ∙ n)) ∙ q),
      )
    ]
  ]

  lookup-forget_none :
      (c : ℕ) (t : Table ℕ) → lookup c t ≡ none → lookup c (forget_room id heap t) ≡ none
  unfolding forget_room lookup
  lookup-forget_none c [] h = refl
  lookup-forget_none c ((k, ref) ∷ t) h = elim (Bool-cases (k == c)) [
    | inl same ↦ absurd (none-ne-some (sym (rw (same, lookup) at h)))
    | inr other ↦ elim (forget_keeps k ref t) [
      | inl (e, _) ↦ rw (e, other, lookup) (lookup-forget_none c t (rw (other, lookup) at h))
      | inr (room, h', q, e) ↦ rw e (lookup-forget_none c t (rw (other, lookup) at h))
    ]
  ]

  -- What is found afterwards was found before, and its room has another number.
  lookup-forget-eq-some :
      (c ref : ℕ) (t : Table ℕ)
      → lookup c (forget_room id heap t) ≡ some ref
      → Distinct t
      → (lookup c t ≡ some ref) × ((room : Room) → heap ref ≡ some room → room.room_id ≢ id)
  unfolding forget_room lookup
  lookup-forget-eq-some c ref [] h d = absurd (none-ne-some h)
  lookup-forget-eq-some c ref ((k, r) ∷ t) h d = elim (forget_keeps k r t) [
    | inl (e, n) ↦ elim (Bool-cases (k == c)) [
      | inl same ↦
          let q : r ≡ ref = some_inj (rw (e, same, lookup) at h) in
          (
            rw (same, lookup) (ap some q),
            subst (λ i. (room : Room) → heap i ≡ some room → room.room_id ≢ id) q n,
          )
      | inr other ↦
          let (l, n') = lookup-forget-eq-some c ref t (rw (e, other, lookup) at h) d.1 in
          (rw (other, lookup) l, n')
    ]
    | inr (room, at, q, e) ↦ elim (Bool-cases (k == c)) [
      | inl same ↦ absurd (
          none-ne-some (
            sym (lookup-forget_none c t (subst (λ i. lookup i t ≡ none) ((==_iff k c).0 same) d.0))
            ∙ (rw e at h)))
      | inr other ↦
          let (l, n') = lookup-forget-eq-some c ref t (rw e at h) d.1 in (rw (other, lookup) l, n')
    ]
  ]

  -- An entry whose room has another number is kept.
  lookup-forget_other :
      (c ref : ℕ) (room : Room) (t : Table ℕ)
      → heap ref ≡ some room
      → room.room_id ≢ id
      → lookup c t ≡ some ref
      → lookup c (forget_room id heap t) ≡ some ref
  unfolding lookup
  lookup-forget_other c ref room [] at n h = cc
  lookup-forget_other c ref room ((k, r) ∷ t) at n h = elim (Bool-cases (k == c)) [
    | inl same ↦ elim (forget_keeps k r t) [
      | inl (e, _) ↦ rw (e, same, lookup) (rw (same, lookup) at h)
      | inr (room', h', q, e) ↦ absurd (
          n (
            ap (λ (t : Room). t.room_id)
              (some_inj (sym at ∙ ap heap (sym (some_inj (rw (same, lookup) at h))) ∙ h'))
            ∙ q))
    ]
    | inr other ↦ elim (forget_keeps k r t) [
      | inl (e, _) ↦
          rw (e, other, lookup) (lookup-forget_other c ref room t at n (rw (other, lookup) at h))
      | inr (room', h', q, e) ↦
          rw e (lookup-forget_other c ref room t at n (rw (other, lookup) at h))
    ]
  ]

  forget-Distinct : (t : Table ℕ) → Distinct t → Distinct (forget_room id heap t)
  unfolding forget_room
  forget-Distinct [] d = d
  forget-Distinct ((c, ref) ∷ t) d = elim (forget_keeps c ref t) [
    | inl (e, _) ↦ rw e (lookup-forget_none c t d.0, forget-Distinct t d.1)
    | inr (room, h, q, e) ↦ rw e (forget-Distinct t d.1)
  ]

module _ (w : World) (ref : ℕ) (room : Room) (v : Consistent (some ref) w)
    (at : w.heap ref ≡ some room) (shut : room.closed ≡ true)
    (entry : lookup room.room_id w.rooms ≡ some ref) where
  -- The room that has been closed is not an open one.
  other_room : (r : ℕ) (ro : Room) → w.heap r ≡ some ro → ro.closed ≡ false → some ref ≢ some r
  other_room r ro e o n =
      let q : room ≡ ro = some_inj (sym at ∙ ap w.heap (some_inj n) ∙ e) in
      true-ne-false (sym shut ∙ ap (λ (t : Room). t.closed) q ∙ o)

  other_id :
      (r : ℕ) (ro : Room) → w.heap r ≡ some ro → ro.closed ≡ false → room.room_id ≢ ro.room_id
  other_id r ro e o q =
      other_room r ro e o (sym entry ∙ ap (λ k. lookup k w.rooms) q ∙ v.listed r ro e o)

  -- A room with a participant is open.
  open_room :
      (r : ℕ) (ro : Room) (c : ℕ) (p : Participant)
      → w.heap r ≡ some ro
      → lookup c ro.participants ≡ some p
      → ro.closed ≡ false
  open_room r ro c p e l = elim (Bool-cases ro.closed) [
    | inl closed ↦
        absurd (lookup_nil c p (ap (lookup c) (sym ((v.is_room r ro e).emptied closed)) ∙ l))
    | inr o ↦ o
  ]

  kept_room :
      (id r : ℕ)
      → lookup id (erase room.room_id w.rooms) ≡ some r
      → (ro : Room) × (w.heap r ≡ some ro) × IsLive none id r ro
  kept_room id r e =
      let (n, l) = lookup-erase-eq-some room.room_id id w.rooms e in
      let (ro, h, (i, o)) = v.live id r l in
      (
        ro,
        h,
        (
          i,
          λ _. o (λ q.
              n (
                ap (λ (t : Room). t.room_id) (some_inj (sym at ∙ ap w.heap (some_inj q) ∙ h)) ∙ i)),
        ),
      )

  mapped_room :
      (c r : ℕ)
      → lookup c (forget_room room.room_id w.heap w.connection_room) ≡ some r
      → (ro : Room) × (w.heap r ≡ some ro) × (none ≢ some r → IsOpenFor c ro)
  mapped_room c r e =
      let (l, n) = lookup-forget-eq-some room.room_id w.heap c r w.connection_room e v.keys in
      let (ro, h, o) = v.mapped c r l in
      (
        ro,
        h,
        λ _. o (λ q.
            n ro h (
              sym (ap (λ (t : Room). t.room_id) (some_inj (sym at ∙ ap w.heap (some_inj q) ∙ h))))),
      )

  pub cleanup_room-Consistent : Consistent none (cleanup_room room.room_id w)
  unfolding cleanup_room remove_room
  cleanup_room-Consistent = record {
    is_room = v.is_room;
    owned = λ r ro e o _. v.owned r ro e o (other_room r ro e o);
    listed = λ r ro e o.
        lookup-erase_ne room.room_id ro.room_id w.rooms (other_id r ro e o) ∙ v.listed r ro e o;
    live = kept_room;
    called = v.called;
    mapped = mapped_room;
    entered = λ r ro c p e l.
        let (m, o) = v.entered r ro c p e l in
        (
          lookup-forget_other room.room_id w.heap c r ro w.connection_room e
              (λ q. other_id r ro e (open_room r ro c p e l) (sym q)) m,
          o,
        );
    handled = v.handled;
    fresh_refs = v.fresh_refs;
    fresh_conns = v.fresh_conns;
    keys = forget-Distinct room.room_id w.heap w.connection_room v.keys;
    few_rooms = omega (arith, length-erase room.room_id w.rooms, v.few_rooms);
    roomy = v.roomy;
  }
