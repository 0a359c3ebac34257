-- ===== src/Meeting/Consistent/Flags.antt =====
-- Sending changes no connection's flags and no read buffer, so it keeps the invariant.
use ccmeeting.Common.{
  ℕ, ◌≡◌, refl, sym, ◌∙◌, inl, inr, Bool, true, false, ◌||◌, not, Option, [], ◌∷◌, arith, ◌==◌,
  if◌then◌else◌, Bool-cases, Option-cases, Bytes,
}
use ccmeeting.Common.Table.{lookup, Table}
use ccmeeting.Common.Run.{Run, done, terminated, out_of_fuel, ◌>>=◌, Ensures}
use ccmeeting.Network.Connection.{is_open, Connection, send}
use ccmeeting.Protocol.Json.{Json}
use ccmeeting.Protocol.Codec.{Packet, encode}
use ccmeeting.Meeting.Room.{make_user_profile_packet, Room, Participant}
use ccmeeting.Meeting.World.{World, update, update_keeps}
use ccmeeting.Meeting.Relay.{
  notify, notify_user_joined, send_profiles, send_to, Conns, send_all, broadcast,
}
use ccmeeting.Meeting.Consistent.{Consistent}

pub record SameFlags (conns conns' : Conns) : Type 0 where
  pub closed : (c : ℕ) → (conns' c).closed ≡ (conns c).closed
  pub handler : (c : ℕ) → (conns' c).close_handler ≡ (conns c).close_handler
  pub buffer : (c : ℕ) → (conns' c).read_buffer ≡ (conns c).read_buffer

pub SameFlags-refl : (conns : Conns) → SameFlags conns conns
SameFlags-refl conns = record { closed = λ c. refl; handler = λ c. refl; buffer = λ c. refl }

pub SameFlags-trans : {a b d : Conns} → SameFlags a b → SameFlags b d → SameFlags a d
SameFlags-trans f g = record {
  closed = λ c. g.closed c ∙ f.closed c;
  handler = λ c. g.handler c ∙ f.handler c;
  buffer = λ c. g.buffer c ∙ f.buffer c;
}

send_flags :
    (m : Bytes) (c : Connection)
    → ((send m c).closed ≡ c.closed)
      × ((send m c).close_handler ≡ c.close_handler)
      × ((send m c).read_buffer ≡ c.read_buffer)
unfolding send
send_flags m c = ground arith

-- A write to one connection that keeps its flags.
pub update-SameFlags :
    (conns : Conns) (k : ℕ) (v : Connection)
    → v.closed ≡ (conns k).closed
    → v.close_handler ≡ (conns k).close_handler
    → v.read_buffer ≡ (conns k).read_buffer
    → SameFlags conns (update conns k v)
update-SameFlags conns k v p q r = record {
  closed = λ c. update_keeps conns k v (λ t. t.closed) c p;
  handler = λ c. update_keeps conns k v (λ t. t.close_handler) c q;
  buffer = λ c. update_keeps conns k v (λ t. t.read_buffer) c r;
}

pub send-SameFlags :
    (conns : Conns) (k : ℕ) (m : Bytes) → SameFlags conns (update conns k (send m (conns k)))
send-SameFlags conns k m =
    let f = send_flags m (conns k) in update-SameFlags conns k (send m (conns k)) f.0 f.1 f.2

send_all-SameFlags :
    (encoded : Bytes) (exclude : ℕ) (t : Table Participant) (conns : Conns)
    → SameFlags conns (send_all encoded exclude t conns)
unfolding send_all
send_all-SameFlags encoded exclude [] conns = SameFlags-refl conns
send_all-SameFlags encoded exclude ((c, p) ∷ rest) conns =
    SameFlags-trans one (send_all-SameFlags encoded exclude rest _)
  where
    one : SameFlags conns (
        if (c == exclude) || not (is_open (conns c))
        then conns
        else update conns c (send encoded (conns c)))
    one = elim (Bool-cases ((c == exclude) || not (is_open (conns c)))) [
      | inl e ↦ rw e (SameFlags-refl conns)
      | inr e ↦ rw e (send-SameFlags conns c encoded)
    ]

-- The rule for a step of a `do` block.
pub Ensures-map {ℓ} :
    {A : Type ℓ} (P Q : A → Type 0) (m : Run A) → ((a : A) → P a → Q a) → Ensures P m → Ensures Q m
Ensures-map P Q (done a) k h = k a h
Ensures-map P Q terminated k h = tt
Ensures-map P Q out_of_fuel k h = h

pub Ensures-bind {ℓ κ} :
    {A : Type ℓ} {B : Type κ} (P : A → Type 0) (Q : B → Type 0) (m : Run A) (f : A → Run B)
    → Ensures P m
    → ((a : A) → P a → Ensures Q (f a))
    → Ensures Q (m >>= f)
Ensures-bind P Q (done a) f h k = k a h
Ensures-bind P Q terminated f h k = tt
Ensures-bind P Q out_of_fuel f h k = h

-- The rule for a test.
pub Ensures-if {ℓ} :
    {A : Type ℓ} (P : A → Type 0) (b : Bool) (m n : Run A)
    → (b ≡ true → Ensures P m)
    → (b ≡ false → Ensures P n)
    → Ensures P (if b then m else n)
Ensures-if P true m n h k = h refl
Ensures-if P false m n h k = k refl

-- Flags kept by one step and by what follows it are kept by both.
then_SameFlags :
    (conns : Conns) (m : Run Conns) (f : Conns → Run Conns)
    → Ensures (SameFlags conns) m
    → ((conns' : Conns) → Ensures (SameFlags conns') (f conns'))
    → Ensures (SameFlags conns) (m >>= f)
then_SameFlags conns (done a) f h k =
    Ensures-map (λ c. SameFlags a c) (λ c. SameFlags conns c) (f a) (λ c g. SameFlags-trans h g)
      (k a)
then_SameFlags conns terminated f h k = tt
then_SameFlags conns out_of_fuel f h k = h

module _ (j : Json) where
  pub broadcast-SameFlags :
      (packet : Packet) (exclude : ℕ) (room : Room) (conns : Conns)
      → Ensures (SameFlags conns) (broadcast j packet exclude room conns)
  unfolding broadcast
  broadcast-SameFlags packet exclude room conns = elim (Option-cases (encode j packet)) [
    | inl e ↦ rw (e, broadcast) tt
    | inr (m, e) ↦ rw (e, broadcast) (send_all-SameFlags m exclude room.participants conns)
  ]

  pub send_to-SameFlags :
      (target : ℕ) (packet : Packet) (conns : Conns)
      → Ensures (SameFlags conns) (send_to j target packet conns)
  unfolding send_to
  send_to-SameFlags target packet conns = elim (Bool-cases (is_open (conns target))) [
    | inl o ↦ elim (Option-cases (encode j packet)) [
      | inl e ↦ rw (o, e, send_to) tt
      | inr (m, e) ↦ rw (o, e, send_to) (send-SameFlags conns target m)
    ]
    | inr o ↦ rw (o, send_to) (SameFlags-refl conns)
  ]

  send_profile-SameFlags :
      (newcomer : ℕ) (p : Participant) (skip : Bool) (conns : Conns)
      → Ensures
          (SameFlags conns)
          (if skip then done conns else send_to j newcomer (make_user_profile_packet p) conns)
  send_profile-SameFlags newcomer p true conns = SameFlags-refl conns
  send_profile-SameFlags newcomer p false conns =
      send_to-SameFlags newcomer (make_user_profile_packet p) conns

  send_profiles-SameFlags :
      (newcomer : ℕ) (t : Table Participant) (conns : Conns)
      → Ensures (SameFlags conns) (send_profiles j newcomer t conns)
  unfolding send_profiles
  send_profiles-SameFlags newcomer [] conns = SameFlags-refl conns
  send_profiles-SameFlags newcomer ((c, p) ∷ rest) conns =
      then_SameFlags _ _ _ (send_profile-SameFlags newcomer p _ conns)
        (λ conns'. send_profiles-SameFlags newcomer rest conns')

  notify-SameFlags :
      (newcomer : ℕ) (entry : Participant) (room : Room) (conns : Conns)
      → Ensures (SameFlags conns) (notify j newcomer entry room conns)
  unfolding notify
  notify-SameFlags newcomer entry room conns =
      then_SameFlags _ _ _ (broadcast-SameFlags _ newcomer room conns) λ c1.
        then_SameFlags _ _ _ (send_to-SameFlags newcomer _ c1) λ c2.
          then_SameFlags _ _ _ (send_to-SameFlags newcomer _ c2)
            (λ c3. send_profiles-SameFlags newcomer room.participants c3)

  pub notify_user_joined-SameFlags :
      (newcomer : ℕ) (room : Room) (conns : Conns)
      → Ensures (SameFlags conns) (notify_user_joined j newcomer room conns)
  unfolding notify_user_joined
  notify_user_joined-SameFlags newcomer room conns = elim (Bool-cases room.closed) [
    | inl e ↦ rw (e, notify_user_joined) (SameFlags-refl conns)
    | inr e ↦ elim (Option-cases (lookup newcomer room.participants)) [
      | inl n ↦ rw (e, n, notify_user_joined) (SameFlags-refl conns)
      | inr (entry, n) ↦ rw (e, n, notify_user_joined) (notify-SameFlags newcomer entry room conns)
    ]
  ]

-- The invariant reads no more of a connection than its two flags.
pub Consistent-conns :
    (x : Option ℕ) (w : World) (conns' : Conns)
    → ((c : ℕ) → (conns' c).closed ≡ (w.conns c).closed)
    → ((c : ℕ) → (conns' c).close_handler ≡ (w.conns c).close_handler)
    → Consistent x w
    → Consistent x (record w { conns = conns' })
Consistent-conns x w conns' closed handler v = record {
  is_room = v.is_room;
  owned = v.owned;
  listed = v.listed;
  live = v.live;
  called = v.called;
  mapped = v.mapped;
  entered = λ ref room c p h m. let e = v.entered ref room c p h m in (e.0, closed c ∙ e.1);
  handled = λ c o. handler c ∙ v.handled c (sym (closed c) ∙ o);
  fresh_refs = v.fresh_refs;
  fresh_conns = λ c h. closed c ∙ v.fresh_conns c h;
  keys = v.keys;
  few_rooms = v.few_rooms;
  roomy = v.roomy;
}

pub Consistent-SameFlags :
    (x : Option ℕ) (w : World) (conns' : Conns)
    → SameFlags w.conns conns'
    → Consistent x w
    → Consistent x (record w { conns = conns' })
Consistent-SameFlags x w conns' s v = Consistent-conns x w conns' s.closed s.handler v
