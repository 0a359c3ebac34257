-- ===== src/Accounts/Files/Below.antt =====
-- Only files below the two roots are served.
use ccmeeting.Common.{
  ◌≡◌, refl, sym, ap, ◌∙◌, ◌⊎◌, inl, inr, true, Option, none, some, if◌then◌else◌, Bool-cases,
  Option-cases, drop, Bytes, codes, if_true, if_false,
}
use ccmeeting.Accounts.Model.{AssetsConfig}
use ccmeeting.Accounts.Files.{
  FileSystem, StaticFile, Served, starts_with, is_safe_relative, or_threw, resolve_root,
  read_file_response, serve_canonical, serve_below, try_serve_static_file,
}
use ccmeeting.Accounts.Files

module _ (fs : FileSystem) where
  -- The body is the content of a file; the path at which it was read is the canonical path of a path
  -- that is joined to the resolved root and has no part `..`, and begins with the root's canonical path.
  pub record IsBelow (root : Bytes) (f : StaticFile) : Type 0 where
    pub resolved : Bytes
    pub resolves : resolve_root fs root ≡ some resolved
    pub canonical_root : Bytes
    pub canonical_file : Bytes
    pub rooted : fs.weakly_canonical resolved ≡ some canonical_root
    pub relative : Bytes
    pub safe : is_safe_relative (fs.parts relative) ≡ true
    pub filed : fs.weakly_canonical (fs.join resolved relative) ≡ some canonical_file
    pub below : starts_with canonical_root canonical_file ≡ true
    pub content : fs.read canonical_file ≡ some (some f.body)

  file_inj : {f g : StaticFile} → Files.file f ≡ Files.file g → f ≡ g
  file_inj h = cc

  nothing-ne-file : {f : StaticFile} → Files.nothing ≡ Files.file f → ⊥
  nothing-ne-file h = cc

  threw-ne-file : {f : StaticFile} → Files.threw ≡ Files.file f → ⊥
  threw-ne-file h = cc

  or_threw-eq-file :
      (o : Option Bytes) (k : Bytes → Served) (f : StaticFile)
      → or_threw fs o k ≡ Files.file f
      → (path : Bytes) × (o ≡ some path) × (k path ≡ Files.file f)
  or_threw-eq-file none k f e = absurd (threw-ne-file e)
  or_threw-eq-file (some path) k f e = (path, refl, e)

  read-eq-file :
      (path target : Bytes) (f : StaticFile)
      → read_file_response fs path target ≡ Files.file f
      → fs.read path ≡ some (some f.body)
  unfolding read_file_response
  read-eq-file path target f e = elim (Option-cases (fs.read path)) [
    | inl g ↦ absurd (threw-ne-file (rw (g, read_file_response) at e))
    | inr (none, g) ↦ absurd (nothing-ne-file (rw (g, read_file_response) at e))
    | inr (some body, g) ↦
        g ∙ ap (λ (f : StaticFile). some (some f.body)) (file_inj (rw (g, read_file_response) at e))
  ]

  canonical-eq-file :
      (target root path : Bytes) (f : StaticFile)
      → serve_canonical fs target root path ≡ Files.file f
      → (starts_with root path ≡ true) × (fs.read path ≡ some (some f.body))
  unfolding serve_canonical
  canonical-eq-file target root path f e = elim (Bool-cases (starts_with root path)) [
    | inl g ↦ (g, read-eq-file path target f (sym (if_true g _ _) ∙ e))
    | inr g ↦ absurd (nothing-ne-file (sym (if_false g _ _) ∙ e))
  ]

  serve_below-IsBelow :
      (target root relative : Bytes) (f : StaticFile)
      → serve_below fs target root relative ≡ Files.file f
      → IsBelow root f
  unfolding serve_below
  serve_below-IsBelow target root relative f e =
      let (resolved, resolves, e1) = or_threw-eq-file (resolve_root fs root) _ f e in
      elim (Bool-cases (is_safe_relative (fs.parts relative))) [
        | inr unsafe ↦ absurd (nothing-ne-file (sym (if_false unsafe _ _) ∙ e1))
        | inl safe ↦
            let (croot, rooted, e2) =
              or_threw-eq-file (fs.weakly_canonical resolved) _ f (sym (if_true safe _ _) ∙ e1) in
            let (cfile, filed, e3) =
              or_threw-eq-file (fs.weakly_canonical (fs.join resolved relative)) _ f e2 in
            let found = canonical-eq-file target croot cfile f e3 in
            record {
              resolved = resolved;
              resolves = resolves;
              canonical_root = croot;
              canonical_file = cfile;
              rooted = rooted;
              relative = relative;
              safe = safe;
              filed = filed;
              below = found.0;
              content = found.1;
            }
      ]

  -- If a target is answered with a file, then the body was read at the canonical path of a path
  -- without a part '..' below the static root or below the upload root, and that canonical path
  -- begins with the canonical path of that root.
  pub try_serve_static_file-IsBelow :
      (target : Bytes) (assets : AssetsConfig) (f : StaticFile)
      → try_serve_static_file fs target assets ≡ Files.file f
      → IsBelow assets.static_root f ⊎ IsBelow assets.upload_root f
  unfolding try_serve_static_file
  try_serve_static_file-IsBelow target assets f e =
      elim (Bool-cases (starts_with (codes "/") target)) [
        | inr g ↦ absurd (nothing-ne-file (sym (if_false g _ _) ∙ e))
        | inl g ↦ below_roots (fs.lexically_normal target) (sym (if_true g _ _) ∙ e)
      ]
    where
      below_roots :
          (normalized : Bytes)
          → (if starts_with (codes "/static/") normalized
              then serve_below fs normalized assets.static_root (drop 8 normalized)
              else if starts_with (codes "/uploads/") normalized
              then serve_below fs normalized assets.upload_root (drop 9 normalized)
              else Files.nothing)
            ≡ Files.file f
          → IsBelow assets.static_root f ⊎ IsBelow assets.upload_root f
      below_roots normalized e = elim (Bool-cases (starts_with (codes "/static/") normalized)) [
        | inl g ↦ inl (serve_below-IsBelow _ _ _ f (sym (if_true g _ _) ∙ e))
        | inr g ↦ elim (Bool-cases (starts_with (codes "/uploads/") normalized)) [
          | inl h ↦ inr (serve_below-IsBelow _ _ _ f (sym (if_false g _ _ ∙ if_true h _ _) ∙ e))
          | inr h ↦ absurd (nothing-ne-file (sym (if_false g _ _ ∙ if_false h _ _) ∙ e))
        ]
      ]
