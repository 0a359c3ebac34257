-- ===== src/Accounts/Service/Limits.antt =====
-- Which profiles `update_profile` takes.
use ccmeeting.Common.{
  ℕ, ◌≤◌, ◌<◌, ◌≡◌, refl, sym, ap, ◌∙◌, ◌≢◌, ◌↔◌, inl, inr, Bool, true, false, not, none, some,
  arith, Bool-cases, Option-cases, true-ne-false, length, Bytes, if_true, if_false,
}
use ccmeeting.Accounts.Model.{Profile, ProfileUpdateResult}
use ccmeeting.Accounts.Sqlite.{Sqlite}
use ccmeeting.Accounts.Repository
use ccmeeting.Accounts.Repository.{user_exists}
use ccmeeting.Accounts.Service.{
  Platform, known_gender, bad_birthday, profile_error, update_profile, updated_profile,
}

-- The limits of a profile's fields, in bytes.
pub record IsAcceptable (user_id : ℕ) (p : Profile) : Type 0 where
  pub someone : user_id ≢ 0
  pub nickname_given : 0 < length p.nickname
  pub nickname_fits : length p.nickname ≤ 64
  pub info_fits : length p.info ≤ 512
  pub gender_known : known_gender p.gender ≡ true
  pub birthday_formed : bad_birthday p.birthday ≡ false
  pub address_fits : length p.address ≤ 256
  pub phone_fits : length p.phone ≤ 32
  pub email_fits : length p.email ≤ 128
  pub extra_json_fits : length p.extra_json ≤ 2048

acceptable-no_error :
    (user_id : ℕ) (p : Profile) → IsAcceptable user_id p → profile_error user_id p ≡ none
unfolding profile_error
acceptable-no_error user_id p a = ground (
  arith, a.someone, a.nickname_given, a.nickname_fits, a.info_fits, a.gender_known,
  a.birthday_formed, a.address_fits, a.phone_fits, a.email_fits, a.extra_json_fits,
)

no_error-IsAcceptable :
    (user_id : ℕ) (p : Profile) → profile_error user_id p ≡ none → IsAcceptable user_id p
unfolding profile_error
no_error-IsAcceptable user_id p e = record {
  someone = ground (arith, e);
  nickname_given = ground (arith, e);
  nickname_fits = ground (arith, e);
  info_fits = ground (arith, e);
  gender_known = ground (arith, e);
  birthday_formed = ground (arith, e);
  address_fits = ground (arith, e);
  phone_fits = ground (arith, e);
  email_fits = ground (arith, e);
  extra_json_fits = ground (arith, e);
}

module _ (platform : Platform) (sql : Sqlite) (user_id : ℕ) (profile : Profile) (db : sql.Db) where
  abbrev written : Bool × sql.Db
  written = Repository.update_profile sql user_id profile db

  abbrev Updatable : Type 0
  Updatable =
      IsAcceptable user_id profile × (user_exists sql user_id db ≡ true) × (written.0 ≡ true)

  updated-success : (r : Bool × sql.Db) → (updated_profile platform sql profile r).0.success ≡ r.0
  updated-success (true, db) = refl
  updated-success (false, db) = refl

  with_error :
      (message : Bytes)
      → profile_error user_id profile ≡ some message
      → (update_profile platform sql user_id profile db).0.success ≡ false
  unfolding update_profile
  with_error message e = rw (e, update_profile) refl

  without_user :
      profile_error user_id profile ≡ none
      → user_exists sql user_id db ≡ false
      → (update_profile platform sql user_id profile db).0.success ≡ false
  unfolding update_profile
  without_user e f =
      rw (e, update_profile)
        (ap (λ (r : ProfileUpdateResult × sql.Db). r.0.success) (if_true (ap not f) _ _))

  with_user :
      profile_error user_id profile ≡ none
      → user_exists sql user_id db ≡ true
      → (update_profile platform sql user_id profile db).0.success ≡ written.0
  unfolding update_profile
  with_user e f =
      rw (e, update_profile)
        (ap (λ (r : ProfileUpdateResult × sql.Db). r.0.success) (if_false (ap not f) _ _)
          ∙ updated-success written)

  updated : (update_profile platform sql user_id profile db).0.success ≡ true → Updatable
  updated s = elim (Option-cases (profile_error user_id profile)) [
    | inr (message, e) ↦ absurd (true-ne-false (sym s ∙ with_error message e))
    | inl e ↦ elim (Bool-cases (user_exists sql user_id db)) [
      | inr f ↦ absurd (true-ne-false (sym s ∙ without_user e f))
      | inl f ↦ (no_error-IsAcceptable user_id profile e, f, sym (with_user e f) ∙ s)
    ]
  ]

  -- A profile update succeeds if and only if the user id is not 0, every field is within its
  -- limits, the user exists and the repository writes the profile.
  pub update_profile-IsAcceptable :
      ((update_profile platform sql user_id profile db).0.success ≡ true) ↔ (
        IsAcceptable user_id profile
        × (user_exists sql user_id db ≡ true)
        × ((Repository.update_profile sql user_id profile db).0 ≡ true))
  update_profile-IsAcceptable =
      (updated, λ (a, f, w). with_user (acceptable-no_error user_id profile a) f ∙ w)
