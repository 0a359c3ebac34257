-- ===== src/Protocol/Json.antt =====
-- What the codec uses of nlohmann/json and of `double`: a parameter of the model.
use ccmeeting.Common.{
  ℕ, ◌^◌, ◌≤◌, ◌<◌, ◌≡◌, Bool, true, false, Option, some, if◌then◌else◌, length, Bytes, bytes_eq,
}

-- The library's calls. A call that throws returns `none`.
pub record Json : Type 1 where
  -- `nlohmann::json`
  pub Doc : Type 0
  pub Double : Type 0
  -- `json document;`
  pub null : Doc
  -- `json::parse`
  pub parse : Bytes → Option Doc
  -- `document.dump()`: throws where a string is no valid UTF-8.
  pub dump : Doc → Option Bytes
  pub contains : Doc → Bytes → Bool
  -- `document.value(key, std::string)`: throws unless the document is an object, and where the key
  -- is there with a value of another type.
  pub value_string : Doc → Bytes → Bytes → Option Bytes
  -- `document.value(key, double)`
  pub value_double : Doc → Bytes → Double → Option Double
  -- `document[key] = value`
  pub set_string : Doc → Bytes → Bytes → Doc
  pub set_double : Doc → Bytes → Double → Doc
  -- `0.0`
  pub zero_double : Double
  -- `static_cast<double>`
  pub to_double : ℕ → Double
  -- `static_cast<uint64_t>`
  pub to_uint64 : Double → ℕ

-- Its documented behaviour, as far as the theorems rely on it.
pub record IsJson (j : Json) : Type 0 where
  pub parse-dump : (d : j.Doc) (text : Bytes) → j.dump d ≡ some text → j.parse text ≡ some d
  -- A dumped document is never empty.
  pub dump_nonempty : (d : j.Doc) (text : Bytes) → j.dump d ≡ some text → 0 < length text
  pub contains-null : (k : Bytes) → j.contains j.null k ≡ false
  pub contains-set_string :
      (d : j.Doc) (k l v : Bytes)
      → j.contains (j.set_string d k v) l ≡ (if bytes_eq k l then true else j.contains d l)
  pub contains-set_double :
      (d : j.Doc) (k l : Bytes) (v : j.Double)
      → j.contains (j.set_double d k v) l ≡ (if bytes_eq k l then true else j.contains d l)
  pub value-set_string :
      (d : j.Doc) (k v default : Bytes) → j.value_string (j.set_string d k v) k default ≡ some v
  pub value-set_double :
      (d : j.Doc) (k : Bytes) (v default : j.Double)
      → j.value_double (j.set_double d k v) k default ≡ some v
  -- A member that is set does not change the others.
  pub value_string-set_string :
      (d : j.Doc) (k l v default : Bytes)
      → bytes_eq k l ≡ false
      → j.contains d l ≡ true
      → j.value_string (j.set_string d k v) l default ≡ j.value_string d l default
  pub value_string-set_double :
      (d : j.Doc) (k l : Bytes) (v : j.Double) (default : Bytes)
      → bytes_eq k l ≡ false
      → j.contains d l ≡ true
      → j.value_string (j.set_double d k v) l default ≡ j.value_string d l default
  pub value_double-set_string :
      (d : j.Doc) (k l v : Bytes) (default : j.Double)
      → bytes_eq k l ≡ false
      → j.contains d l ≡ true
      → j.value_double (j.set_string d k v) l default ≡ j.value_double d l default
  -- Integers up to 2^53 are doubles.
  pub to_uint64-to_double : (n : ℕ) → n ≤ 2 ^ 53 → j.to_uint64 (j.to_double n) ≡ n
