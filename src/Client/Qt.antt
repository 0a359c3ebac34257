-- ===== src/Client/Qt.antt =====
-- What the client's codec uses of Qt: strings, Base64 and JSON. A parameter of the model.
use ccmeeting.Common.{
  ℕ, ◌^◌, ◌≤◌, ◌≡◌, Bool, true, false, ◌&&◌, Option, some, [], ◌∷◌, ltb, if◌then◌else◌, Bytes,
  IsBytes, bytes_eq,
}

-- The library's calls.
pub record Qt : Type 1 where
  -- `QString`
  pub Str : Type 0
  pub from_utf8 : Bytes → Str
  pub to_utf8 : Str → Bytes
  pub from_latin1 : Bytes → Str
  pub to_latin1 : Str → Bytes
  pub is_empty : Str → Bool
  -- `QString::number`
  pub number : ℕ → Str
  -- `name == QLatin1String(literal)`
  pub equals_latin1 : Str → Bytes → Bool
  -- `QByteArray`
  pub to_base64 : Bytes → Bytes
  pub from_base64 : Bytes → Bytes
  pub trimmed : Bytes → Bytes
  -- `double`, and its conversions to and from the bits of a `qint64`
  pub Double : Type 0
  pub to_double : ℕ → Double
  pub to_int64 : Double → ℕ
  -- `QJsonObject`
  pub Object : Type 0
  pub empty_object : Object
  pub insert_string : Object → Bytes → Str → Object
  pub insert_double : Object → Bytes → Double → Object
  pub contains : Object → Bytes → Bool
  -- `object.value(key).toString()`
  pub value_string : Object → Bytes → Str
  -- `object.value(key).toDouble()`
  pub value_double : Object → Bytes → Double
  -- `QJsonDocument`
  pub Document : Type 0
  -- `QJsonDocument(object).toJson(QJsonDocument::Compact)`
  pub to_json : Object → Bytes
  -- `QJsonDocument::fromJson`: `none` is a parse error.
  pub from_json : Bytes → Option Document
  -- `doc.object()` where `doc.isObject()`
  pub object : Document → Option Object

-- Bytes below 128.
abbrev pub is_ascii : Bytes → Bool
is_ascii [] = true
is_ascii (b ∷ bs) = ltb b 128 && is_ascii bs

-- Its documented behaviour, as far as the theorems rely on it.
pub record IsQt (q : Qt) : Type 1 where
  pub equals_latin1-from_latin1 : (a b : Bytes) → q.equals_latin1 (q.from_latin1 a) b ≡ bytes_eq a b
  pub to_latin1-from_latin1 : (b : Bytes) → IsBytes b → q.to_latin1 (q.from_latin1 b) ≡ b
  -- ASCII is both UTF-8 and Latin-1.
  pub from_utf8_ascii : (b : Bytes) → is_ascii b ≡ true → q.from_utf8 b ≡ q.from_latin1 b
  pub to_utf8-from_latin1_ascii : (b : Bytes) → is_ascii b ≡ true → q.to_utf8 (q.from_latin1 b) ≡ b
  pub from_base64-to_base64 : (b : Bytes) → IsBytes b → q.from_base64 (q.to_base64 b) ≡ b
  pub to_base64-IsBytes : (b : Bytes) → IsBytes b → IsBytes (q.to_base64 b)
  -- Integers up to 2^53 are doubles.
  pub to_int64-to_double : (n : ℕ) → n ≤ 2 ^ 53 → q.to_int64 (q.to_double n) ≡ n
  -- The members of an object.
  pub contains-empty : (k : Bytes) → q.contains q.empty_object k ≡ false
  pub contains-insert_string :
      (o : q.Object) (k l : Bytes) (s : q.Str)
      → q.contains (q.insert_string o k s) l ≡ (if bytes_eq k l then true else q.contains o l)
  pub contains-insert_double :
      (o : q.Object) (k l : Bytes) (d : q.Double)
      → q.contains (q.insert_double o k d) l ≡ (if bytes_eq k l then true else q.contains o l)
  pub value_string-insert_string :
      (o : q.Object) (k l : Bytes) (s : q.Str)
      → q.value_string (q.insert_string o k s) l ≡ (if bytes_eq k l then s else q.value_string o l)
  pub value_string-insert_double :
      (o : q.Object) (k l : Bytes) (d : q.Double)
      → bytes_eq k l ≡ false
      → q.value_string (q.insert_double o k d) l ≡ q.value_string o l
  pub value_double-insert_double :
      (o : q.Object) (k : Bytes) (d : q.Double) → q.value_double (q.insert_double o k d) k ≡ d
  pub value_double-insert_string :
      (o : q.Object) (k l : Bytes) (s : q.Str)
      → bytes_eq k l ≡ false
      → q.value_double (q.insert_string o k s) l ≡ q.value_double o l
  -- An object whose strings all come from bytes is what its text is read as.
  pub Regular : q.Object → Type 0
  pub empty-Regular : Regular q.empty_object
  pub insert_utf8-Regular :
      (o : q.Object) (k b : Bytes) → Regular o → Regular (q.insert_string o k (q.from_utf8 b))
  pub insert_latin1-Regular :
      (o : q.Object) (k b : Bytes) → Regular o → Regular (q.insert_string o k (q.from_latin1 b))
  pub insert_double-Regular :
      (o : q.Object) (k : Bytes) (n : ℕ) → Regular o → Regular (q.insert_double o k (q.to_double n))
  pub from_json-to_json :
      (o : q.Object)
      → Regular o
      → (d : q.Document) × (q.from_json (q.to_json o) ≡ some d) × (q.object d ≡ some o)
  -- The text of an object begins with a brace and ends with one.
  pub trimmed-to_json : (o : q.Object) → q.trimmed (q.to_json o) ≡ q.to_json o
  pub to_json_brace : (o : q.Object) → (rest : Bytes) × (q.to_json o ≡ b'{' ∷ rest)
