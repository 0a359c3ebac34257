-- ===== src/Meeting/Manager/RoomId.antt =====
-- The number of a new room.
use ccmeeting.Common.{
  ℕ, zero, suc, ◌+◌, ◌%◌, ◌^◌, ◌≤◌, ◌<◌, ◌≡◌, refl, sym, ◌∙◌, ◌≢◌, ◌⊎◌, inl, inr, true, false, none,
  some, List, [], ◌∷◌, arith, ◌==◌, ==_iff, Bool-cases, Option-cases, some_inj, true-ne-false,
  subst, length,
}
use ccmeeting.Common.Table.{Table, lookup, erase, lookup-erase_ne, length-erase_found}
use ccmeeting.Meeting.Manager.{in_use, first_free, next_free, choose_room_id}

in_use_free : (id : ℕ) (t : Table ℕ) → in_use id t ≡ false → lookup id t ≡ none
unfolding in_use
in_use_free id t h = elim (Option-cases (lookup id t)) [
  | inl e ↦ e
  | inr (v, e) ↦ absurd (true-ne-false (rw (e, in_use) at h))
]

length-erase-in_use : (id : ℕ) (t : Table ℕ) → in_use id t ≡ true → length (erase id t) < length t
unfolding in_use
length-erase-in_use id t h = elim (Option-cases (lookup id t)) [
  | inl e ↦ absurd (true-ne-false (sym (rw (e, in_use) at h)))
  | inr (v, e) ↦ length-erase_found id t e
]

in_use-erase : (id k : ℕ) (t : Table ℕ) → k ≢ id → in_use id (erase k t) ≡ in_use id t
unfolding in_use
in_use-erase id k t n = rw (lookup-erase_ne k id t n, in_use) refl

-- The search does not see a number that is not among those it tries.
next_free-erase :
    (n next k : ℕ) (t : Table ℕ)
    → next < 2 ^ 32
    → ((d : ℕ) → d < n → k ≢ (next + d) % 2 ^ 32)
    → next_free n next (erase k t) ≡ next_free n next t
unfolding next_free
next_free-erase zero next k t small h = refl
next_free-erase (suc n) next k t small h =
    rw
      (
        in_use-erase next k t (λ e. h 0 (omega arith) (omega arith)),
        next_free-erase n ((next + 1) % 2 ^ 32) k t (omega arith)
            (λ d lt e. h (d + 1) (omega arith) (omega arith)),
      )
      refl

next_free_unused :
    (n next : ℕ) (t : Table ℕ) (r : ℕ × ℕ) → next_free n next t ≡ some r → in_use r.0 t ≡ false
unfolding next_free
next_free_unused zero next t r h = cc
next_free_unused (suc n) next t r h = elim (Bool-cases (in_use next t)) [
  | inl u ↦ next_free_unused n ((next + 1) % 2 ^ 32) t r (rw (u, next_free) at h)
  | inr u ↦ subst (λ q. in_use q.0 t ≡ false) (some_inj (rw (u, next_free) at h)) u
]

-- Each number that is in use is one room less for the rest of the search.
next_free_total :
    (n next : ℕ) (t : Table ℕ)
    → length t < n
    → n ≤ 2 ^ 32
    → next < 2 ^ 32
    → (r : ℕ × ℕ) × (next_free n next t ≡ some r)
unfolding next_free
next_free_total zero next t lt le small = absurd (omega arith)
next_free_total (suc n) next t lt le small = elim (Bool-cases (in_use next t)) [
  | inr u ↦ ((next, (next + 1) % 2 ^ 32), rw (u, next_free) refl)
  | inl u ↦
      let next' = (next + 1) % 2 ^ 32 in
      let (r, e) =
        next_free_total n next' (erase next t) (omega (arith, length-erase-in_use next t u))
          (omega arith) (omega arith) in
      (
        r,
        rw (u, next_free)
            (sym (next_free-erase n next' next t (omega arith) (λ d lt e. absurd (omega arith)))
              ∙ e),
      )
]

first_free_unused :
    (draws : List ℕ) (t : Table ℕ)
    → (first_free draws t ≡ 0) ⊎ (in_use (first_free draws t) t ≡ false)
unfolding first_free
first_free_unused [] t = inl refl
first_free_unused (c ∷ draws) t = elim (Bool-cases (in_use c t)) [
  | inl u ↦ rw (u, first_free) (first_free_unused draws t)
  | inr u ↦ rw (u, first_free) (inr u)
]

-- The number that is chosen is free.
pub choose_room_id_unused :
    (draws : List ℕ) (next : ℕ) (t : Table ℕ) (r : ℕ × ℕ)
    → choose_room_id draws next t ≡ some r
    → lookup r.0 t ≡ none
unfolding choose_room_id
choose_room_id_unused draws next t r e = elim (Bool-cases (first_free draws t == 0)) [
  | inl z ↦
      in_use_free r.0 t (next_free_unused (length t + 1) next t r (rw (z, choose_room_id) at e))
  | inr nz ↦ elim (first_free_unused draws t) [
    | inl q ↦ absurd (true-ne-false (sym ((==_iff _ 0).1 q) ∙ nz))
    | inr u ↦
        in_use_free r.0 t
          (subst (λ q. in_use q.0 t ≡ false) (some_inj (rw (nz, choose_room_id) at e)) u)
  ]
]

-- With fewer than 2^32 rooms and a next number below 2^32, the choice of a room number ends with a
-- number that no room has, whatever the random draws are.
pub choose_room_id_total :
    (draws : List ℕ) (next : ℕ) (t : Table ℕ)
    → length t < 2 ^ 32
    → next < 2 ^ 32
    → (r : ℕ × ℕ) × (choose_room_id draws next t ≡ some r) × (in_use r.0 t ≡ false)
unfolding choose_room_id
choose_room_id_total draws next t few small = elim (Bool-cases (first_free draws t == 0)) [
  | inl z ↦
      let (r, e) = next_free_total (length t + 1) next t (omega arith) (omega arith) small in
      (r, rw (z, choose_room_id) e, next_free_unused (length t + 1) next t r e)
  | inr nz ↦ elim (first_free_unused draws t) [
    | inl e ↦ absurd (true-ne-false (sym ((==_iff _ 0).1 e) ∙ nz))
    | inr u ↦ ((first_free draws t, next), rw (nz, choose_room_id) refl, u)
  ]
]
