-- ===== src/Meeting/Consistent/Steps.antt =====
-- Every event of the loop: the server's objects agree after it, and its handler comes back.
use ccmeeting.Common.{
  ℕ, zero, suc, ◌+◌, ◌-◌, ◌≤◌, ◌<◌, ◌≡◌, refl, sym, ap, ◌∙◌, ◌⊎◌, inl, inr, true, false, none, List,
  arith, ltb, ◌==◌, Bool-cases, Option-cases, true-ne-false, subst, Bytes,
}
use ccmeeting.Common.Table.{lookup}
use ccmeeting.Common.Run.{Ensures, done}
use ccmeeting.Wire.{read_uint32_be}
use ccmeeting.Protocol.Json.{Json}
use ccmeeting.Protocol.Codec.{Packet, Decode, try_decode, consume}
use ccmeeting.Network.Buffer.{Buffer, readable, readable_size, move_read_pos}
use ccmeeting.Network.Connection.{Connection, receive}
use ccmeeting.Meeting.Room.{ServerConfig}
use ccmeeting.Meeting.World.{World, init, set_conn, update_self, update_keeps}
use ccmeeting.Meeting.Closing.{close}
use ccmeeting.Meeting.Service.{
  Event, connected, message, failed, written, expired, dispatch, read_round, on_connection_read,
  on_message, step, set_buffer, close_fuel,
}
use ccmeeting.Meeting.Consistent.{Consistent}
use ccmeeting.Meeting.Consistent.Flags.{Ensures-map, Ensures-bind, Ensures-if, Consistent-conns}
use ccmeeting.Meeting.Consistent.Close.{close-IsClosed, IsClosed}
use ccmeeting.Meeting.Consistent.Arrive.{
  IsHandled, init-Consistent, accept-Consistent, on_expired-Consistent, written-Consistent,
  room_packet-IsHandled,
}
use ccmeeting.Meeting.Consistent.Lobby.{handle_lobby_packet-IsHandled}

consume-shrinks :
    (j : Json) (n : ℕ) (b b' : Buffer) (d : Decode) (p : Packet)
    → 0 < n
    → n ≤ readable_size b
    → consume j n b d ≡ (Decode.ok p, b')
    → readable_size b' < readable_size b
unfolding readable_size move_read_pos
consume-shrinks j n b b' Decode.need_more p pos le e = cc
consume-shrinks j n b b' Decode.invalid p pos le e = cc
consume-shrinks j n b b' Decode.throws p pos le e = cc
consume-shrinks j n b b' (Decode.ok q) p pos le e =
    subst (λ (r : Decode × Buffer). r.1.write_pos - r.1.read_pos < b.write_pos - b.read_pos) e
      (omega arith)

need_more-ne-ok :
    (b b' : Buffer) (p : Packet)
    → ◌≡◌ {A = Decode × Buffer} (Decode.need_more, b) (Decode.ok p, b')
    → readable_size b' < readable_size b
need_more-ne-ok b b' p e = cc

invalid-ne-ok :
    (b b' : Buffer) (p : Packet)
    → ◌≡◌ {A = Decode × Buffer} (Decode.invalid, b) (Decode.ok p, b')
    → readable_size b' < readable_size b
invalid-ne-ok b b' p e = cc

try_decode-shrinks :
    (j : Json) (b b' : Buffer) (p : Packet)
    → try_decode j b ≡ (Decode.ok p, b')
    → readable_size b' < readable_size b
unfolding try_decode
try_decode-shrinks j b b' p e = elim (Bool-cases (ltb (readable_size b) 4)) [
  | inl short ↦ need_more-ne-ok b b' p (rw (short, try_decode) at e)
  | inr long ↦ elim (Bool-cases (read_uint32_be (readable b) == 0)) [
    | inl z ↦ invalid-ne-ok b b' p (rw (long, z, try_decode) at e)
    | inr pos ↦ elim (Bool-cases (ltb (readable_size b) (4 + read_uint32_be (readable b)))) [
      | inl part ↦ need_more-ne-ok b b' p (rw (long, pos, part, try_decode) at e)
      | inr whole ↦
          consume-shrinks j (4 + read_uint32_be (readable b)) b b' _ p (omega arith) (ground arith)
            (rw (long, pos, whole, try_decode) at e)
    ]
  ]
]

close_conn-Consistent :
    (j : Json) (c : ℕ) (w : World)
    → Consistent none w
    → Ensures (Consistent none) (close j close_fuel c w)
close_conn-Consistent j c w v =
    Ensures-map (IsClosed c) (Consistent none) _ (λ w' h. h.0) (close-IsClosed j c w v)

module _ (j : Json) (draws : List ℕ) (c : ℕ) where
  dispatch-IsHandled :
      (packet : Packet) (w : World)
      → Consistent none w
      → (w.conns c).closed ≡ false
      → Ensures (IsHandled c (w.conns c).read_buffer) (dispatch j draws c packet w)
  unfolding dispatch
  dispatch-IsHandled packet w v o = elim (Option-cases (lookup c w.connection_room)) [
    | inl n ↦
        rw (n, dispatch)
          (handle_lobby_packet-IsHandled j c (w.conns c).read_buffer w (v, refl) o n draws packet)
    | inr (ref, q) ↦ rw (q, dispatch) (room_packet-IsHandled j ref c packet w v q)
  ]

  set_buffer-Consistent :
      (b : Buffer) (w : World) → Consistent none w → Consistent none (set_buffer j c b w)
  set_buffer-Consistent b w v =
      Consistent-conns none w _ (λ d. update_keeps w.conns c _ (λ t. t.closed) d refl)
        (λ d. update_keeps w.conns c _ (λ t. t.close_handler) d refl) v

  -- What the loop needs: one round more than there are readable bytes, unless the connection is closed.
  abbrev IsEnough : ℕ → World → Type 0
  IsEnough fuel w =
      (0 < fuel) × (((w.conns c).closed ≡ true) ⊎ (readable_size (w.conns c).read_buffer < fuel))

  read_closed :
      (fuel : ℕ) (w : World)
      → (w.conns c).closed ≡ true
      → on_connection_read j (suc fuel) draws c w ≡ done w
  unfolding on_connection_read
  read_closed fuel w h = rw (h, on_connection_read) refl

  read_open :
      (fuel : ℕ) (w : World)
      → (w.conns c).closed ≡ false
      → on_connection_read j (suc fuel) draws c w
        ≡ read_round j
            (on_connection_read j fuel draws c)
            draws
            c
            (try_decode j (w.conns c).read_buffer)
            w
  unfolding on_connection_read
  read_open fuel w h = rw (h, on_connection_read) refl

  read_round-Consistent :
      (fuel : ℕ) (w : World) (r : Decode × Buffer)
      → Consistent none w
      → (w.conns c).closed ≡ false
      → ((p : Packet) (b : Buffer) → r ≡ (Decode.ok p, b) → readable_size b < fuel)
      → ((w' : World)
          → Consistent none w'
          → IsEnough fuel w'
          → Ensures (Consistent none) (on_connection_read j fuel draws c w'))
      → Ensures (Consistent none) (read_round j (on_connection_read j fuel draws c) draws c r w)
  unfolding read_round
  read_round-Consistent fuel w (Decode.need_more, b) v o shrinks again = v
  read_round-Consistent fuel w (Decode.invalid, b) v o shrinks again =
      close_conn-Consistent j c (set_buffer j c b w) (set_buffer-Consistent b w v)
  read_round-Consistent fuel w (Decode.throws, b) v o shrinks again = tt
  read_round-Consistent fuel w (Decode.ok p, b) v o shrinks again =
      Ensures-bind (IsHandled c ((set_buffer j c b w).conns c).read_buffer) (Consistent none) _ _
        (dispatch-IsHandled p (set_buffer j c b w) (set_buffer-Consistent b w v)
          (ap (λ (t : Connection). t.closed) (update_self w.conns c _) ∙ o))
        (λ w' h. again w' h.0 (omega (arith, less), left_over w' h.1))
    where
      less : readable_size b < fuel
      less = shrinks p b refl

      left_over :
          (w' : World)
          → ((w'.conns c).closed ≡ true)
            ⊎ ((w'.conns c).read_buffer ≡ ((set_buffer j c b w).conns c).read_buffer)
          → ((w'.conns c).closed ≡ true) ⊎ (readable_size (w'.conns c).read_buffer < fuel)
      left_over w' (inl shut) = inl shut
      left_over w' (inr same) = inr (
          subst (λ t. readable_size t < fuel)
            (sym (same ∙ ap (λ (t : Connection). t.read_buffer) (update_self w.conns c _))) less)

  on_connection_read-Consistent :
      (fuel : ℕ) (w : World)
      → Consistent none w
      → IsEnough fuel w
      → Ensures (Consistent none) (on_connection_read j fuel draws c w)
  on_connection_read-Consistent zero w v (pos, enough) = absurd (omega arith)
  on_connection_read-Consistent (suc fuel) w v (pos, enough) =
      elim (Bool-cases (w.conns c).closed) [
        | inl shut ↦ subst (Ensures (Consistent none)) (sym (read_closed fuel w shut)) v
        | inr o ↦ subst (Ensures (Consistent none)) (sym (read_open fuel w o)) (
            read_round-Consistent fuel w (try_decode j (w.conns c).read_buffer) v o
              (λ p b e.
                omega (arith, try_decode-shrinks j (w.conns c).read_buffer b p e, still o enough))
              (λ w' v' enough'. on_connection_read-Consistent fuel w' v' enough'))
      ]
    where
      still :
          (w.conns c).closed ≡ false
          → ((w.conns c).closed ≡ true) ⊎ (readable_size (w.conns c).read_buffer < suc fuel)
          → readable_size (w.conns c).read_buffer < suc fuel
      still o (inl shut) = absurd (true-ne-false (sym shut ∙ o))
      still o (inr less) = less

  on_message-Consistent :
      (bytes : Bytes) (w : World)
      → Consistent none w
      → Ensures (Consistent none) (on_message j draws c bytes w)
  unfolding on_message receive
  on_message-Consistent bytes w v =
      on_connection_read-Consistent _ (set_conn c (receive bytes (w.conns c)) w)
        (Consistent-conns none w _ (λ d. update_keeps w.conns c _ (λ t. t.closed) d refl)
          (λ d. update_keeps w.conns c _ (λ t. t.close_handler) d refl) v)
        (omega arith, inr (omega arith))

-- From a consistent state every event either ends in a consistent state or ends the process by an
-- uncaught exception; the fuel given to the read loop and to the nested closes never runs out.
pub step-Consistent :
    (j : Json) (w : World) (e : Event) → Consistent none w → Ensures (Consistent none) (step j w e)
unfolding step
step-Consistent j w connected v = accept-Consistent w v
step-Consistent j w (message draws c bytes) v = on_message-Consistent j draws c bytes w v
step-Consistent j w (failed c) v = close_conn-Consistent j c w v
step-Consistent j w (written c) v =
    Ensures-if (Consistent none) (w.conns c).write_in_progress _ _ (λ _. written-Consistent c w v)
      (λ _. v)
step-Consistent j w (expired ref) v = on_expired-Consistent j ref w v

-- The states that a server with this configuration comes to.
pub data Reach (j : Json) (config : ServerConfig) : World → Type 1 where
  start : Reach j config (init config)
  next : (w w' : World) (e : Event) → Reach j config w → step j w e ≡ done w' → Reach j config w'

-- If a room may have at least one participant, then in every state that the server comes to from
-- its start by completed events its objects are consistent: rooms within their limits with at most
-- one owner, an owner in every open room, the manager listing the open rooms and no others, the
-- connection table and the rooms' participants agreeing, participants' connections open, and no
-- more rooms than allowed.
pub Reach-Consistent :
    (j : Json) (config : ServerConfig) (w : World)
    → 1 ≤ config.max_participants_per_room
    → Reach j config w
    → Consistent none w
Reach-Consistent j config w h start = init-Consistent config h
Reach-Consistent j config w h (next w0 w' e r q) =
    subst (Ensures (Consistent none)) q (step-Consistent j w0 e (Reach-Consistent j config w0 h r))
