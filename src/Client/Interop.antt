-- ===== src/Client/Interop.antt =====
-- The client and the server read each other's frames: the JSON that Qt writes and nlohmann/json reads,
-- and the other way round.
pub mod Upstream
pub mod Downstream
pub mod Requests
use ccmeeting.Common.{
  ℕ, zero, suc, ◌+◌, ◌-◌, ◌*◌, ◌/◌, ◌%◌, ◌^◌, ◌≤◌, ◌<◌, min, max, String, ◌≡◌, refl, sym, ap, ap₂,
  ◌∙◌, ◌≢◌, ◌↔◌, ◌⊎◌, inl, inr, Bool, true, false, ◌&&◌, ◌||◌, not, Option, none, some, List, [],
  ◌∷◌, ◌++◌, map, append_assoc, append-nil, arith, ltb, leb, ◌==◌, if◌then◌else◌, ltb→lt, leb→le,
  ==_iff, ==_self, ==_ne, Bool-cases, Option-cases, some_inj, none-ne-some, true-ne-false, subst,
  length, take, drop, get_or, replicate, All, length-append, length-take, length-drop,
  length-replicate, take-append, drop-append, drop-append_le, take-append_le, drop-drop, drop-take,
  take-take, take-append_ge, take_all, All-append, All-drop, All-take, All-get_or, Bytes, IsByte,
  IsBytes, codes, bytes_eq, bytes_eq→eq, bytes_eq_self, c_string, if_true, if_false,
}
use ccmeeting.Base64.{alphabet, letter, base64_encode}
use ccmeeting.Protocol.Json.{Json}
use ccmeeting.Protocol.MessageType.{MessageType, type_name}
use ccmeeting.Protocol.Codec.{key_t, key_u, key_s, key_p}
use ccmeeting.Client.Types.{MsgType}
use ccmeeting.Client.Types
use ccmeeting.Client.Types.Agreement.{counterpart, type_name-counterpart}
use ccmeeting.Client.Qt.{Qt, IsQt, is_ascii}

-- The value of a member: a string, by its bytes in UTF-8, or a number.
pub data Value : Type 0 where
  text : Bytes → Value
  number : ℕ → Value

-- The members of an object, the last one set first.
abbrev pub Members : Type 0
Members = List (Bytes × Value)

abbrev pub found : Bytes → Members → Option Value
found k [] = none
found k ((l, v) ∷ members) = let rest = found k members in if bytes_eq l k then some v else rest

-- The document that the server sets them in, and the object that the client inserts them into.
abbrev pub document_with : (j : Json) → Members → j.Doc
document_with j [] = j.null
document_with j ((k, text b) ∷ members) = j.set_string (document_with j members) k b
document_with j ((k, number n) ∷ members) = j.set_double (document_with j members) k (j.to_double n)

abbrev pub object_with : (q : Qt) → Members → q.Object
object_with q [] = q.empty_object
object_with q ((k, text b) ∷ members) = q.insert_string (object_with q members) k (q.from_utf8 b)
object_with q ((k, number n) ∷ members) = q.insert_double (object_with q members) k (q.to_double n)

-- The key is ASCII, and the value is one that both libraries can hold: a text that Qt gives back as
-- it was, or an integer up to 2^53.
abbrev pub IsPlain : Qt → Bytes × Value → Type 0
IsPlain q (k, text b) = (is_ascii k ≡ true) × (IsBytes b × (q.to_utf8 (q.from_utf8 b) ≡ b))
IsPlain q (k, number n) = (is_ascii k ≡ true) × (n ≤ 2 ^ 53)

-- What the accessors of a document say of a key.
abbrev pub Shows : (j : Json) → j.Doc → Bytes → Option Value → Type 0
Shows j d k none = j.contains d k ≡ false
Shows j d k (some (text b)) =
    (j.contains d k ≡ true) × ((default : Bytes) → j.value_string d k default ≡ some b)
Shows j d k (some (number n)) =
    (j.contains d k ≡ true)
    × ((default : j.Double) → j.value_double d k default ≡ some (j.to_double n))

abbrev pub Holds : (q : Qt) → q.Object → Bytes → Option Value → Type 0
Holds q o k none = q.contains o k ≡ false
Holds q o k (some (text b)) = (q.contains o k ≡ true) × (q.value_string o k ≡ q.from_utf8 b)
Holds q o k (some (number n)) = (q.contains o k ≡ true) × (q.value_double o k ≡ q.to_double n)

-- Both libraries implement RFC 8259 and RFC 4648: in the text that one writes for an object of plain
-- members the other finds the same members, and no others.
pub record IsInterop (j : Json) (q : Qt) : Type 0 where
  pub parse-to_json :
      (members : Members)
      → All (IsPlain q) members
      → (d : j.Doc) × (j.parse (q.to_json (object_with q members)) ≡ some d)
        × ((k : Bytes) → Shows j d k (found k members))
  -- A document with a member is an object.
  pub from_json-dump :
      (m : Bytes × Value) (members : Members)
      → All (IsPlain q) (m ∷ members)
      → (json : Bytes) → j.dump (document_with j (m ∷ members)) ≡ some json
      → (doc : q.Document) × (o : q.Object) × (q.from_json json ≡ some doc)
        × (q.object doc ≡ some o)
        × ((k : Bytes) → Holds q o k (found k (m ∷ members)))
  pub to_base64-standard : (b : Bytes) → IsBytes b → q.to_base64 b ≡ base64_encode b

letter_ascii : (i : ℕ) → ltb (letter i) 128 ≡ true
unfolding letter
letter_ascii i = ground (arith, All-get_or (λ b. b < 128) alphabet i 0 (omega arith) (omega arith))

pub base64_encode_ascii : (b : Bytes) → is_ascii (base64_encode b) ≡ true
unfolding base64_encode
base64_encode_ascii [] = refl
base64_encode_ascii (a ∷ []) = simp letter_ascii refl
base64_encode_ascii (a ∷ b ∷ []) = simp letter_ascii refl
base64_encode_ascii (a ∷ b ∷ c ∷ rest) = simp letter_ascii (base64_encode_ascii rest)

pub type_name_ascii : (t : MsgType) → is_ascii (Types.type_name t) ≡ true
unfolding Types.type_name
type_name_ascii MsgType.img_send = refl
type_name_ascii _ = refl

pub ascii-IsBytes : (b : Bytes) → is_ascii b ≡ true → IsBytes b
ascii-IsBytes [] h = tt
ascii-IsBytes (c ∷ b) h = elim (Bool-cases (ltb c 128)) [
  | inl e ↦ (ground (arith, e), ascii-IsBytes b (rw e at h))
  | inr e ↦ absurd (true-ne-false (sym (rw e at h)))
]

-- The members of a packet's object.
abbrev pub header_members : MessageType → ℕ → Members
header_members type user_id = (key_u, number user_id) ∷ (key_t, text (type_name type)) ∷ []

abbrev pub payload_members : MessageType → ℕ → Bytes → Members
payload_members type user_id [] = header_members type user_id
payload_members type user_id (b ∷ bs) =
    (key_p, text (base64_encode (b ∷ bs))) ∷ header_members type user_id

abbrev pub text_members : MessageType → ℕ → Bytes → Members
text_members type user_id payload = (key_s, text payload) ∷ header_members type user_id

-- What a text is to Qt, if it is one of ASCII.
module _ (q : Qt) (law : IsQt q) where
  pub ascii_back : (b : Bytes) → is_ascii b ≡ true → q.to_utf8 (q.from_utf8 b) ≡ b
  ascii_back b h = ap q.to_utf8 (law.from_utf8_ascii b h) ∙ law.to_utf8-from_latin1_ascii b h

  pub ascii-IsPlain : (k b : Bytes) → is_ascii k ≡ true → is_ascii b ≡ true → IsPlain q (k, text b)
  ascii-IsPlain k b hk hb = (hk, (ascii-IsBytes b hb, ascii_back b hb))

  pub header-All :
      (t : MessageType) (user_id : ℕ)
      → user_id ≤ 2 ^ 53
      → All (IsPlain q) (header_members t user_id)
  header-All t user_id small = (
    (refl, small),
    (
      ascii-IsPlain key_t (type_name t) refl (
          subst (λ n. is_ascii n ≡ true) (type_name-counterpart t)
            (type_name_ascii (counterpart t))),
      tt,
    ),
  )

  pub payload-All :
      (t : MessageType) (user_id : ℕ) (payload : Bytes)
      → user_id ≤ 2 ^ 53
      → All (IsPlain q) (payload_members t user_id payload)
  payload-All t user_id [] small = header-All t user_id small
  payload-All t user_id (b ∷ bs) small = (
    ascii-IsPlain key_p (base64_encode (b ∷ bs)) refl (base64_encode_ascii (b ∷ bs)),
    header-All t user_id small,
  )

  pub text-All :
      (t : MessageType) (user_id : ℕ) (payload : Bytes)
      → user_id ≤ 2 ^ 53
      → IsBytes payload
      → q.to_utf8 (q.from_utf8 payload) ≡ payload
      → All (IsPlain q) (text_members t user_id payload)
  text-All t user_id payload small h valid = ((refl, (h, valid)), header-All t user_id small)
