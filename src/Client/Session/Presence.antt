-- ===== src/Client/Session/Presence.antt =====
-- Who is shown as a member.
use ccmeeting.Common.{
  ℕ, ◌≡◌, refl, sym, ap, ◌∙◌, inl, inr, Bool, true, false, ◌&&◌, ◌||◌, not, Option, none, some,
  List, [], ◌∷◌, ◌==◌, if◌then◌else◌, ==_iff, ==_self, Bool-cases, Option-cases, true-ne-false,
  subst,
}
use ccmeeting.Common.Table.{Table, lookup, lookup-emplace, lookup-erase, lookup-assign}
use ccmeeting.Client.Qt.{Qt}
use ccmeeting.Client.Session.{
  Partner, Participants, new_partner, add, remove, apply_profile, add_all, clear,
}

abbrev pub is_some {ℓ} : {A : Type ℓ} → Option A → Bool
is_some none = false
is_some (some a) = true

abbrev pub joins : ℕ → List ℕ → Bool → Bool
joins u [] b = b
joins u (id ∷ ids) b = joins u ids (b || (id == u))

module _ {Str : Type 0} where
  -- Is this user shown?
  abbrev pub present : ℕ → Participants Str → Bool
  present u ps = is_some (lookup u ps.partners)

is_some_if :
    {A : Type 0} (b : Bool) (a : A) (o : Option A)
    → is_some (if b then some a else o) ≡ is_some o || b
is_some_if true a none = refl
is_some_if true a (some x) = refl
is_some_if false a none = refl
is_some_if false a (some x) = refl

is_some_unless :
    {A : Type 0} (b : Bool) (o : Option A) → is_some (if b then none else o) ≡ is_some o && not b
is_some_unless true none = refl
is_some_unless true (some x) = refl
is_some_unless false none = refl
is_some_unless false (some x) = refl

or_true : (b : Bool) → b || true ≡ true
or_true true = refl
or_true false = refl

module _ (q : Qt) where
  -- A user who is there stays there when one more joins.
  already :
      (id u : ℕ) (t : Table (Partner q.Str)) {p : Partner q.Str}
      → lookup id t ≡ some p
      → is_some (lookup u t) ≡ is_some (lookup u t) || (id == u)
  already id u t e = elim (Bool-cases (id == u)) [
    | inr other ↦ rw other (or_false (is_some (lookup u t)))
    | inl same ↦ rw same (
        subst (λ v. is_some (lookup v t) ≡ is_some (lookup v t) || true) ((==_iff id u).0 same)
          (rw e refl))
  ]
    where
      or_false : (b : Bool) → b ≡ b || false
      or_false true = refl
      or_false false = refl

  pub present-add :
      (id u : ℕ) (ps : Participants q.Str) → present u (add q id ps) ≡ present u ps || (id == u)
  unfolding add
  present-add id u ps = elim (Option-cases (lookup id ps.partners)) [
    | inr (p, e) ↦ rw (e, add) (already id u ps.partners e)
    | inl e ↦
        rw (e, add)
          (ap is_some (lookup-emplace id u (new_partner q) ps.partners e)
            ∙ is_some_if (id == u) (new_partner q) (lookup u ps.partners))
  ]

  absent_stays :
      (id u : ℕ) (t : Table (Partner q.Str))
      → lookup id t ≡ none
      → is_some (lookup u t) ≡ is_some (lookup u t) && not (id == u)
  absent_stays id u t e = elim (Bool-cases (id == u)) [
    | inr other ↦ rw other (and_true (is_some (lookup u t)))
    | inl same ↦ rw same (
        subst (λ v. is_some (lookup v t) ≡ is_some (lookup v t) && false) ((==_iff id u).0 same)
          (rw e refl))
  ]
    where
      and_true : (b : Bool) → b ≡ b && true
      and_true true = refl
      and_true false = refl

  pub present-remove :
      (id u : ℕ) (ps : Participants q.Str)
      → present u (remove q id ps) ≡ present u ps && not (id == u)
  unfolding remove
  present-remove id u ps = elim (Option-cases (lookup id ps.partners)) [
    | inl e ↦ rw (e, remove) (absent_stays id u ps.partners e)
    | inr (p, e) ↦
        rw (e, remove)
          (ap is_some (lookup-erase id u ps.partners)
            ∙ is_some_unless (id == u) (lookup u ps.partners))
  ]

  pub present-add_all :
      (ids : List ℕ) (u : ℕ) (ps : Participants q.Str)
      → present u (add_all q ids ps) ≡ joins u ids (present u ps)
  unfolding add_all
  present-add_all [] u ps = refl
  present-add_all (id ∷ ids) u ps =
      present-add_all ids u (add q id ps) ∙ ap (joins u ids) (present-add id u ps)

  found_added :
      (id : ℕ) (ps : Participants q.Str)
      → (p : Partner q.Str) × (lookup id (add q id ps).partners ≡ some p)
  found_added id ps = elim (Option-cases (lookup id (add q id ps).partners)) [
    | inr found ↦ found
    | inl e ↦ absurd (
        true-ne-false (
          sym (or_true (present id ps))
          ∙ ap (λ b. present id ps || b) (sym (==_self id))
          ∙ sym (present-add id id ps)
          ∙ ap is_some e))
  ]

  pub present-apply_profile :
      (id u : ℕ) (name avatar : q.Str) (ps : Participants q.Str)
      → present u (apply_profile q id name avatar ps) ≡ present u ps || (id == u)
  unfolding apply_profile
  present-apply_profile id u name avatar ps =
      let found = found_added id ps in
      ap is_some (lookup-assign id u _ found.0 (add q id ps).partners found.1)
      ∙ is_some_if (id == u) _ (lookup u (add q id ps).partners)
      ∙ sym (already id u (add q id ps).partners found.1)
      ∙ present-add id u ps

  pub present-clear : (u : ℕ) (ps : Participants q.Str) → present u (clear q ps) ≡ false
  unfolding clear lookup
  present-clear u ps = cleared ps.partners refl
    where
      cleared : (t : Table (Partner q.Str)) → ps.partners ≡ t → present u (clear q ps) ≡ false
      cleared [] e = rw (e, clear, e) refl
      cleared (x ∷ t) e = rw (e, clear) refl
