-- ===== src/Accounts/Model/Address.antt =====
-- The two ways to put a path behind the public base address.
use ccmeeting.Common.{
  ◌≡◌, refl, ◌⊎◌, inl, inr, Bool, true, false, ◌&&◌, not, [], if◌then◌else◌, Bytes,
}
use ccmeeting.Accounts.Model.{
  AssetsConfig, is_empty, starts_with_slash, ends_with_slash, default_avatar_url, join_public_url,
}

-- The address of the default avatar is the one that uploads get for the same path, when there is no
-- base, or the base ends with a slash, or the path begins with one.
pub default_avatar_url-join_public_url :
    (assets : AssetsConfig)
    → (assets.public_base_url ≡ [])
      ⊎ ((ends_with_slash assets.public_base_url ≡ true)
          ⊎ (starts_with_slash assets.default_avatar_path ≡ true))
    → default_avatar_url assets ≡ join_public_url assets assets.default_avatar_path
unfolding default_avatar_url join_public_url
default_avatar_url-join_public_url assets (inl e) = rw e refl
default_avatar_url-join_public_url assets (inr h) =
    cases (is_empty assets.public_base_url) (ends_with_slash assets.public_base_url)
      (starts_with_slash assets.default_avatar_path) _ _ _ _ h
  where
    cases :
        (e b p : Bool) (x y z w : Bytes)
        → (b ≡ true) ⊎ (p ≡ true)
        → ◌≡◌ {A = Bytes}
            (if e then x else if b && p then y else z)
            (if e then x else if p then (if b then y else z) else if not b then w else z)
    cases true b p x y z w k = refl
    cases false true true x y z w k = refl
    cases false true false x y z w k = refl
    cases false false true x y z w k = refl
    cases false false false x y z w (inl k) = cc
    cases false false false x y z w (inr k) = cc
