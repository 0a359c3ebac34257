-- ===== src/Common/Table.antt =====
-- `std::unordered_map` with numbers for keys, as a list of entries. Its iteration order, which C++
-- leaves open, is the order of the list.
use Prim.Native.Nat.{◌<◌, ℕ, ◌+◌, ◌≤◌}
use mathlib.Core.Path.{◌≡◌, refl, sym, ◌∙◌}
use mathlib.Core.Logic.{◌≢◌, ◌⊎◌, inl, inr}
use mathlib.Core.Bool.{false}
use mathlib.Core.Option.{Option, none, some}
use mathlib.Core.List.{List, [], ◌∷◌}
use native.Mathlib.Omega.{arith}
use ccmeeting.Common.Tests.{
  ◌==◌, if◌then◌else◌, Bool-cases, ==_self, ==_ne, ==_iff, some_inj, none-ne-some,
}
use ccmeeting.Common.Lists.{length, All}

abbrev pub Table {ℓ} : Type ℓ → Type ℓ
Table V = List (ℕ × V)

module _ {ℓ} {V : Type ℓ} where
  -- `find`
  unfoldable pub lookup : ℕ → Table V → Option V
  lookup k [] = none
  lookup k ((j, v) ∷ t) = if j == k then some v else lookup k t

  -- `erase`
  unfoldable pub erase : ℕ → Table V → Table V
  erase k [] = []
  erase k ((j, v) ∷ t) = let rest = erase k t in if j == k then rest else (j, v) ∷ rest

  -- `emplace`: a key that is there keeps its value.
  unfoldable pub emplace : ℕ → V → Table V → Table V
  emplace k v [] = (k, v) ∷ []
  emplace k v ((j, w) ∷ t) =
      let rest = emplace k v t in if j == k then (j, w) ∷ t else (j, w) ∷ rest

  -- A write through an iterator: `it->second = v`.
  unfoldable pub assign : ℕ → V → Table V → Table V
  assign k v [] = []
  assign k v ((j, w) ∷ t) = let rest = assign k v t in if j == k then (j, v) ∷ t else (j, w) ∷ rest

  pub lookup-erase :
      (k j : ℕ) (t : Table V) → lookup j (erase k t) ≡ (if k == j then none else lookup j t)
  unfolding lookup erase
  lookup-erase k j [] = ground arith
  lookup-erase k j ((i, v) ∷ t) = ground (arith, lookup-erase k j t)

  pub lookup-emplace :
      (k j : ℕ) (v : V) (t : Table V)
      → lookup k t ≡ none
      → lookup j (emplace k v t) ≡ (if k == j then some v else lookup j t)
  unfolding lookup emplace
  lookup-emplace k j v [] h = refl
  lookup-emplace k j v ((i, w) ∷ t) h = ground (arith, lookup-emplace k j v t)

  pub lookup-assign :
      (k j : ℕ) (v w : V) (t : Table V)
      → lookup k t ≡ some w
      → lookup j (assign k v t) ≡ (if k == j then some v else lookup j t)
  unfolding lookup assign
  lookup-assign k j v w [] h = cc
  lookup-assign k j v w ((i, u) ∷ t) h = ground (arith, lookup-assign k j v w t)

  pub length-assign : (k : ℕ) (v : V) (t : Table V) → length (assign k v t) ≡ length t
  unfolding assign
  length-assign k v [] = refl
  length-assign k v ((i, w) ∷ t) = ground (arith, length-assign k v t)

  pub length-emplace : (k : ℕ) (v : V) (t : Table V) → length (emplace k v t) ≤ length t + 1
  unfolding emplace
  length-emplace k v [] = omega arith
  length-emplace k v ((i, w) ∷ t) = ground (arith, length-emplace k v t)

  pub length-erase : (k : ℕ) (t : Table V) → length (erase k t) ≤ length t
  unfolding erase
  length-erase k [] = omega arith
  length-erase k ((i, w) ∷ t) = ground (arith, length-erase k t)

module _ {ℓ} {V : Type ℓ} where
  pub lookup-erase_self : (k : ℕ) (t : Table V) → lookup k (erase k t) ≡ none
  lookup-erase_self k t = lookup-erase k k t ∙ rw (==_self k) refl

  pub lookup-erase_ne : (k j : ℕ) (t : Table V) → k ≢ j → lookup j (erase k t) ≡ lookup j t
  lookup-erase_ne k j t h = lookup-erase k j t ∙ rw (==_ne k j h) refl

  -- What is found behind an erasure was there before, under another key.
  pub lookup-erase-eq-some :
      (k j : ℕ) (t : Table V) {v : V}
      → lookup j (erase k t) ≡ some v
      → (k ≢ j) × (lookup j t ≡ some v)
  lookup-erase-eq-some k j t e = elim (Bool-cases (k == j)) [
    | inl same ↦ absurd (none-ne-some (sym (lookup-erase k j t ∙ rw same refl) ∙ e))
    | inr other ↦ (λ h. cc (other, (==_iff k j).1 h), sym (lookup-erase k j t ∙ rw other refl) ∙ e)
  ]

  pub lookup-emplace_self :
      (k : ℕ) (v : V) (t : Table V) → lookup k t ≡ none → lookup k (emplace k v t) ≡ some v
  lookup-emplace_self k v t h = lookup-emplace k k v t h ∙ rw (==_self k) refl

  pub lookup-emplace_ne :
      (k j : ℕ) (v : V) (t : Table V)
      → lookup k t ≡ none
      → k ≢ j
      → lookup j (emplace k v t) ≡ lookup j t
  lookup-emplace_ne k j v t h n = lookup-emplace k j v t h ∙ rw (==_ne k j n) refl

  -- What is found behind an insertion is the new entry or was there before.
  pub lookup-emplace-eq-some :
      (k j : ℕ) (v : V) (t : Table V) {u : V}
      → lookup k t ≡ none
      → lookup j (emplace k v t) ≡ some u
      → ((k ≡ j) × (v ≡ u)) ⊎ ((k ≢ j) × (lookup j t ≡ some u))
  lookup-emplace-eq-some k j v t h e = elim (Bool-cases (k == j)) [
    | inl same ↦
        inl ((==_iff k j).0 same, some_inj (sym (lookup-emplace k j v t h ∙ rw same refl) ∙ e))
    | inr other ↦
        inr (λ q. cc (other, (==_iff k j).1 q), sym (lookup-emplace k j v t h ∙ rw other refl) ∙ e)
  ]

module _ {ℓ} {V : Type ℓ} where
  pub length-erase_found :
      (k : ℕ) (t : Table V) {v : V} → lookup k t ≡ some v → length (erase k t) < length t
  unfolding lookup erase
  length-erase_found k [] h = cc
  length-erase_found k ((i, w) ∷ t) h = elim (Bool-cases (i == k)) [
    | inl same ↦ rw (same, erase) (omega (arith, length-erase k t))
    | inr other ↦
        rw (other, erase) (omega (arith, length-erase_found k t (rw (other, lookup) at h)))
  ]

  -- No key stands twice.
  abbrev pub Distinct : Table V → Type ℓ
  Distinct [] = Unit {ℓ}
  Distinct ((k, v) ∷ t) = (lookup k t ≡ none) × Distinct t

  pub lookup-erase_absent :
      (k j : ℕ) (t : Table V) → lookup j t ≡ none → lookup j (erase k t) ≡ none
  lookup-erase_absent k j t h = elim (Bool-cases (k == j)) [
    | inl same ↦ lookup-erase k j t ∙ rw same refl
    | inr other ↦ lookup-erase k j t ∙ rw other h
  ]

  pub erase-Distinct : (k : ℕ) (t : Table V) → Distinct t → Distinct (erase k t)
  unfolding erase
  erase-Distinct k [] d = d
  erase-Distinct k ((j, v) ∷ t) d = elim (Bool-cases (j == k)) [
    | inl same ↦ rw (same, erase) (erase-Distinct k t d.1)
    | inr other ↦ rw (other, erase) (lookup-erase_absent k j t d.0, erase-Distinct k t d.1)
  ]

  pub erase_absent : (k : ℕ) (t : Table V) → lookup k t ≡ none → erase k t ≡ t
  unfolding lookup erase
  erase_absent k [] h = refl
  erase_absent k ((j, v) ∷ t) h = ground (arith, erase_absent k t)

  lookup_tail :
      (k j : ℕ) (u : V) (t : Table V)
      → (j == k) ≡ false
      → lookup k ((j, u) ∷ t) ≡ none
      → lookup k t ≡ none
  unfolding lookup
  lookup_tail k j u t other h = ground arith

  lookup_nil : (k : ℕ) → lookup {V = V} k [] ≡ none
  unfolding lookup
  lookup_nil k = refl

  pub emplace-Distinct :
      (k : ℕ) (v : V) (t : Table V) → lookup k t ≡ none → Distinct t → Distinct (emplace k v t)
  unfolding emplace
  emplace-Distinct k v [] h d = (lookup_nil k, tt)
  emplace-Distinct k v ((j, u) ∷ t) h d = elim (Bool-cases (j == k)) [
    | inl same ↦ rw (same, emplace) d
    | inr other ↦
        rw (other, emplace)
          (
            lookup-emplace k j v t (lookup_tail k j u t other h)
                ∙ rw (==_ne k j (λ e. cc (other, ==_self j, e))) d.0,
            emplace-Distinct k v t (lookup_tail k j u t other h) d.1,
          )
  ]

  pub All-map {κ μ} :
      (P : ℕ × V → Type κ) (Q : ℕ × V → Type μ)
      → ((e : ℕ × V) → P e → Q e)
      → (t : Table V) → All P t
      → All Q t
  All-map P Q f [] a = tt
  All-map P Q f (e ∷ t) a = (f e a.0, All-map P Q f t a.1)

  found_further :
      (k j : ℕ) (u : V) (t : Table V)
      → (v : V) × (lookup k t ≡ some v)
      → (v : V) × (lookup k ((j, u) ∷ t) ≡ some v)
  unfolding lookup
  found_further k j u t (v, e) = elim (Bool-cases (j == k)) [
    | inl same ↦ (u, rw same refl)
    | inr other ↦ (v, rw other e)
  ]

  found_head : (k : ℕ) (u : V) (t : Table V) → lookup k ((k, u) ∷ t) ≡ some u
  unfolding lookup
  found_head k u t = rw (==_self k) refl

  -- Every key of a table is found in it.
  pub keys_found : (t : Table V) → All (λ e. (v : V) × (lookup e.0 t ≡ some v)) t
  keys_found [] = tt
  keys_found ((j, u) ∷ t) =
      ((u, found_head j u t), All-map _ _ (λ e h. found_further e.0 j u t h) t (keys_found t))
