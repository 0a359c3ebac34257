-- ===== src/Protocol/MessageType/Names.antt =====
-- The names and the enumerators are in one-to-one correspondence.
use ccmeeting.Common.{
  ◌≡◌, refl, ap, ◌∙◌, ◌↔◌, inl, inr, some, List, [], ◌∷◌, arith, Bool-cases, Bytes, bytes_eq,
  bytes_eq→eq,
}
use ccmeeting.Protocol.MessageType.{
  MessageType, img_send, type_name, all_types, find_name, type_from_name,
}

-- Every type is found again under its name.
pub type_from_name-type_name : (t : MessageType) → type_from_name (type_name t) ≡ some t
unfolding type_from_name type_name bytes_eq
type_from_name-type_name img_send = refl
type_from_name-type_name _ = refl

find_name-eq-some :
    (name : Bytes) (types : List MessageType) (t : MessageType)
    → find_name name types ≡ some t
    → name ≡ type_name t
unfolding find_name
find_name-eq-some name [] t h = cc
find_name-eq-some name (type ∷ types) t h = elim (Bool-cases (bytes_eq name (type_name type))) [
  | inl e ↦ ground (arith, bytes_eq→eq name (type_name type))
  | inr e ↦ find_name-eq-some name types t (rw (e, find_name) at h)
]

-- The name lookup returns a message type for a name if and only if the name is the one that
-- type_name gives the type.
pub type_from_name-eq-some :
    (name : Bytes) (t : MessageType) → (type_from_name name ≡ some t) ↔ (name ≡ type_name t)
type_from_name-eq-some name t = (
  λ h. unfold type_from_name in find_name-eq-some name all_types t h,
  λ e. ap type_from_name e ∙ type_from_name-type_name t,
)
