-- ===== src/Meeting/World.antt =====
-- The objects of the message server. Connections and rooms are shared: `conns` and `heap` are the
-- objects by their identity, and the manager and the service hold references to them.
use ccmeeting.Common.{
  ℕ, ◌≡◌, refl, sym, ap, ◌∙◌, ◌≢◌, ◌⊎◌, inl, inr, Bool, true, Option, none, some, [], ◌==◌,
  if◌then◌else◌, ==_iff, ==_self, ==_ne, Bool-cases, some_inj, subst,
}
use ccmeeting.Common.Table.{Table}
use ccmeeting.Network.Connection.{Connection, new_connection, is_open}
use ccmeeting.Meeting.Room.{Room, ServerConfig}

pub record World : Type 0 where
  pub config : ServerConfig
  -- `g_next_connection_id`, and the connections by `id()`.
  pub next_connection_id : ℕ
  pub conns : ℕ → Connection
  -- Every room that was made, by reference.
  pub next_ref : ℕ
  pub heap : ℕ → Option Room
  -- `RoomManager::_rooms` and `_next_room_id`.
  pub rooms : Table ℕ
  pub next_room_id : ℕ
  -- `MeetingService::_connection_room`.
  pub connection_room : Table ℕ

abbrev pub update {ℓ} : {A : Type ℓ} → (ℕ → A) → ℕ → A → ℕ → A
update f k v j = if k == j then v else f j

abbrev pub set_conn : ℕ → Connection → World → World
set_conn c conn w = record w { conns = update w.conns c conn }

abbrev pub set_room : ℕ → Room → World → World
set_room ref room w = record w { heap = update w.heap ref (some room) }

-- `conn->is_open()`
abbrev pub is_conn_open : World → ℕ → Bool
is_conn_open w c = is_open (w.conns c)

-- The server before its first connection.
unfoldable pub init : ServerConfig → World
init config = record {
  config = config;
  next_connection_id = 1;
  conns = λ c. record new_connection { closed = true };
  next_ref = 0;
  heap = λ ref. none;
  rooms = [];
  next_room_id = 1;
  connection_room = [];
}

module _ {ℓ} {A : Type ℓ} (f : ℕ → A) (k : ℕ) (v : A) where
  pub update_self : update f k v k ≡ v
  update_self = rw (==_self k) refl

  pub update_ne : (j : ℕ) → k ≢ j → update f k v j ≡ f j
  update_ne j h = rw (==_ne k j h) refl

  -- What the new value has in common with the old one holds at every place.
  pub update_keeps {κ} :
      {B : Type κ} (g : A → B) (j : ℕ) → g v ≡ g (f k) → g (update f k v j) ≡ g (f j)
  update_keeps g j e = elim (Bool-cases (k == j)) [
    | inl same ↦ rw same (e ∙ ap (λ i. g (f i)) ((==_iff k j).0 same))
    | inr other ↦ rw other refl
  ]

  -- What is found at a place is the new value or the old one.
  pub update_cases :
      (j : ℕ) {a : A} → update f k v j ≡ a → ((k ≡ j) × (v ≡ a)) ⊎ ((k ≢ j) × (f j ≡ a))
  update_cases j e = elim (Bool-cases (k == j)) [
    | inl same ↦ inl ((==_iff k j).0 same, sym (rw same refl) ∙ e)
    | inr other ↦ inr (λ h. cc (other, (==_iff k j).1 h), sym (rw other refl) ∙ e)
  ]

-- What holds of a room that is written and of the others holds of every room.
pub heap_elim {ℓ} :
    (P : ℕ → Room → Type ℓ) (heap : ℕ → Option Room) (ref : ℕ) (room : Room)
    → P ref room
    → ((r : ℕ) (other : Room) → ref ≢ r → heap r ≡ some other → P r other)
    → (r : ℕ) (found : Room) → update heap ref (some room) r ≡ some found
    → P r found
heap_elim P heap ref room new old r found e = elim (update_cases heap ref (some room) r e) [
  | inl (same, q) ↦ subst (λ k. P k found) same (subst (λ t. P ref t) (some_inj q) new)
  | inr (other, q) ↦ old r found other q
]

-- A room of the written heap: the new one, or an old one.
pub heap_find :
    (Q : ℕ → Room → Type 0) (heap : ℕ → Option Room) (ref : ℕ) (room : Room) (r : ℕ)
    → (ref ≡ r → Q ref room)
    → (ref ≢ r → (found : Room) × (heap r ≡ some found) × Q r found)
    → (found : Room) × (update heap ref (some room) r ≡ some found) × Q r found
heap_find Q heap ref room r new old = elim (Bool-cases (ref == r)) [
  | inl b ↦ let e = (==_iff ref r).0 b in (room, rw b refl, subst (λ k. Q k room) e (new e))
  | inr b ↦
      let n : ref ≢ r = λ e. cc (b, (==_iff ref r).1 e) in
      let (found, h, q) = old n in (found, update_ne heap ref (some room) r n ∙ h, q)
]
