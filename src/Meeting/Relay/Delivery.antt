-- ===== src/Meeting/Relay/Delivery.antt =====
-- Who gets what a room broadcasts.
use ccmeeting.Common.{
  ℕ, ◌≡◌, refl, sym, ap, ◌∙◌, inl, inr, Bool, true, false, ◌&&◌, ◌||◌, not, Option, none, some, [],
  ◌∷◌, arith, ◌==◌, if◌then◌else◌, ==_iff, ==_self, Bool-cases, subst, Bytes,
}
use ccmeeting.Common.Run.{done}
use ccmeeting.Protocol.Json.{Json}
use ccmeeting.Protocol.MessageType.{text_send, text_recv}
use ccmeeting.Protocol.Codec.{encode}
use ccmeeting.Meeting.Room.{Room}
use ccmeeting.Meeting.Relay.{relay, broadcast, handle_packet}
use ccmeeting.Common.Table.{Table, lookup, Distinct}
use ccmeeting.Network.Connection.{Connection, send, is_open}
use ccmeeting.Meeting.Room.{Participant}
use ccmeeting.Meeting.World.{update}
use ccmeeting.Meeting.Relay.{Conns, send_all}

-- Whether the table has an entry for the connection.
abbrev pub is_entry : Option Participant → Bool
is_entry none = false
is_entry (some p) = true

skip_closed : (m : Bytes) (c : Connection) → is_open c ≡ false → send m c ≡ c
unfolding send
skip_closed m c h = ground arith

lookup_cons :
    (k d : ℕ) (p : Participant) (t : Table Participant)
    → lookup d ((k, p) ∷ t) ≡ (if k == d then some p else lookup d t)
unfolding lookup
lookup_cons k d p t = refl

-- The round of the loop for the connection `k`, seen from `c`.
abbrev one_round : Bytes → ℕ → ℕ → Conns → Conns
one_round m exclude k conns =
    if (k == exclude) || not (is_open (conns k)) then conns else update conns k (send m (conns k))

one_round_other :
    (m : Bytes) (exclude k c : ℕ) (conns : Conns)
    → (k == c) ≡ false
    → one_round m exclude k conns c ≡ conns c
one_round_other m exclude k c conns h =
    elim (Bool-cases ((k == exclude) || not (is_open (conns k)))) [
      | inl b ↦ rw b refl
      | inr b ↦ rw (b, h) refl
    ]

one_round_self :
    (m : Bytes) (exclude c : ℕ) (conns : Conns)
    → one_round m exclude c conns c ≡ (if not (c == exclude) then send m (conns c) else conns c)
one_round_self m exclude c conns = elim (Bool-cases (c == exclude)) [
  | inl e ↦ rw e refl
  | inr e ↦ elim (Bool-cases (is_open (conns c))) [
    | inl o ↦ rw (e, o, ==_self c) refl
    | inr o ↦ rw (e, o) (sym (skip_closed m (conns c) o))
  ]
]

-- Over a table in which no key stands twice, a broadcast sends the bytes once to each connection
-- of the table but the excluded one, and changes no other connection.
pub send_all-lookup :
    (m : Bytes) (exclude : ℕ) (t : Table Participant) (conns : Conns) (c : ℕ)
    → Distinct t
    → send_all m exclude t conns c
      ≡ (if is_entry (lookup c t) && not (c == exclude) then send m (conns c) else conns c)
unfolding send_all lookup
send_all-lookup m exclude [] conns c d = refl
send_all-lookup m exclude ((k, p) ∷ t) conns c d = elim (Bool-cases (k == c)) [
  | inl same ↦
      send_all-lookup m exclude t (one_round m exclude k conns) c d.1
      ∙ rw (ap (λ i. lookup i t) (sym ((==_iff k c).0 same)) ∙ d.0, same)
          (subst
            (λ i.
              one_round m exclude i conns c
              ≡ (if not (c == exclude) then send m (conns c) else conns c))
            (sym ((==_iff k c).0 same)) (one_round_self m exclude c conns))
  | inr other ↦
      send_all-lookup m exclude t (one_round m exclude k conns) c d.1
      ∙ rw (one_round_other m exclude k c conns other, other) refl
]

-- In an open room whose table of participants has no key twice, a text packet from a participant
-- is sent on, if it can be encoded, as text_recv with the user id of the sender's entry and the
-- same payload, once to every other participant's connection and to no other connection, and the
-- room stays as it is; the user id in the packet does not matter.
pub text_send-delivered :
    (j : Json) (from user_id : ℕ) (payload : Bytes) (sender : Participant) (room : Room)
    (conns : Conns) (m : Bytes)
    → room.closed ≡ false
    → lookup from room.participants ≡ some sender
    → Distinct room.participants
    → encode j (record { type = text_recv; user_id = sender.user_id; payload = payload }) ≡ some m
    → (conns' : Conns) × (handle_packet j from
          (record { type = text_send; user_id = user_id; payload = payload })
          room
          conns
        ≡ done (room, conns'))
      × ((c : ℕ)
          → conns' c ≡ (
              if is_entry (lookup c room.participants) && not (c == from)
              then send m (conns c)
              else conns c))
unfolding handle_packet relay broadcast
text_send-delivered j from user_id payload sender room conns m o member d e = (
  send_all m from room.participants conns,
  simp (o, member, e, handle_packet, relay, broadcast),
  λ c. send_all-lookup m from room.participants conns c d,
)
