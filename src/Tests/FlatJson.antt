-- ===== src/Tests/FlatJson.antt =====
-- A small document library with the behaviour that the codec relies on: a document is the list of
-- its keys and values, the last write first. A value begins with 0 for a string and 1 for a number.
use ccmeeting.Common.{
  ℕ, zero, suc, ◌<◌, ◌≡◌, refl, sym, ap, ◌∙◌, inl, inr, Bool, true, false, Option, none, some, List,
  [], ◌∷◌, arith, if◌then◌else◌, Bool-cases, some_inj, subst, length, Bytes, bytes_eq,
  bytes_eq_self,
}
use ccmeeting.Protocol.Json.{Json, IsJson}

abbrev pub Doc : Type 0
Doc = List Bytes

abbrev pub find : Bytes → Doc → Option Bytes
find k [] = none
find k (x ∷ []) = none
find k (x ∷ v ∷ d) = let rest = find k d in if bytes_eq x k then some v else rest

abbrev pub is_some : Option Bytes → Bool
is_some none = false
is_some (some v) = true

abbrev pub as_string : Bytes → Option Bytes → Option Bytes
as_string default none = some default
as_string default (some (zero ∷ s)) = some s
as_string default (some _) = none

abbrev pub as_number : ℕ → Option Bytes → Option ℕ
as_number default none = some default
as_number default (some (suc n ∷ m ∷ [])) = some m
as_number default (some _) = none

-- A string, closed by 0.
abbrev put : Bytes → Bytes → Bytes
put [] rest = 0 ∷ rest
put (n ∷ s) rest = suc n ∷ put s rest

abbrev pub print : Doc → Bytes
print [] = []
print (s ∷ d) = put s (print d)

abbrev push : ℕ → Doc → Doc
push n [] = (n ∷ []) ∷ []
push n (s ∷ d) = (n ∷ s) ∷ d

abbrev scan : Bytes → Doc
scan [] = []
scan (zero ∷ t) = [] ∷ scan t
scan (suc n ∷ t) = push n (scan t)

abbrev pub parse : Bytes → Option Doc
parse [] = none
parse (c ∷ t) = some (scan t)

abbrev pub flat_json : Json
flat_json = record {
  Doc = Doc;
  Double = ℕ;
  null = [];
  parse = parse;
  dump = λ d. some (b'{' ∷ print d);
  contains = λ d k. is_some (find k d);
  value_string = λ d k default. as_string default (find k d);
  value_double = λ d k default. as_number default (find k d);
  set_string = λ d k v. k ∷ (0 ∷ v) ∷ d;
  set_double = λ d k v. k ∷ (1 ∷ v ∷ []) ∷ d;
  zero_double = 0;
  to_double = λ n. n;
  to_uint64 = λ n. n;
}

scan-put : (s t : Bytes) → scan (put s t) ≡ s ∷ scan t
scan-put [] t = refl
scan-put (n ∷ s) t = rw (scan-put s t) refl

pub scan-print : (d : Doc) → scan (print d) ≡ d
scan-print [] = refl
scan-print (s ∷ d) = scan-put s (print d) ∙ ap (λ t. s ∷ t) (scan-print d)

pub find-set :
    (k l v : Bytes) (d : Doc) → find l (k ∷ v ∷ d) ≡ (if bytes_eq k l then some v else find l d)
find-set k l v d = refl

pub find-set_self : (k v : Bytes) (d : Doc) → find k (k ∷ v ∷ d) ≡ some v
find-set_self k v d = find-set k k v d ∙ rw (bytes_eq_self k) refl

pub find-set_other :
    (k l v : Bytes) (d : Doc) → bytes_eq k l ≡ false → find l (k ∷ v ∷ d) ≡ find l d
find-set_other k l v d h = find-set k l v d ∙ rw h refl

pub contains-set :
    (k l v : Bytes) (d : Doc)
    → is_some (find l (k ∷ v ∷ d)) ≡ (if bytes_eq k l then true else is_some (find l d))
contains-set k l v d = elim (Bool-cases (bytes_eq k l)) [
  | inl e ↦ rw (find-set k l v d, e) refl
  | inr e ↦ rw (find-set k l v d, e) refl
]

pub flat_json-IsJson : IsJson flat_json
flat_json-IsJson = record {
  parse-dump = λ d text e. ap parse (sym (some_inj e)) ∙ ap some (scan-print d);
  dump_nonempty = λ d text e. subst (λ t. 0 < length t) (some_inj e) (omega arith);
  contains-null = λ k. refl;
  contains-set_string = λ d k l v. contains-set k l (0 ∷ v) d;
  contains-set_double = λ d k l v. contains-set k l (1 ∷ v ∷ []) d;
  value-set_string = λ d k v default. ap (as_string default) (find-set_self k (0 ∷ v) d);
  value-set_double = λ d k v default. ap (as_number default) (find-set_self k (1 ∷ v ∷ []) d);
  value_string-set_string =
      λ d k l v default h c. ap (as_string default) (find-set_other k l (0 ∷ v) d h);
  value_string-set_double =
      λ d k l v default h c. ap (as_string default) (find-set_other k l (1 ∷ v ∷ []) d h);
  value_double-set_string =
      λ d k l v default h c. ap (as_number default) (find-set_other k l (0 ∷ v) d h);
  to_uint64-to_double = λ n h. refl;
}

-- The text of an encoding that succeeds.
abbrev pub or_empty : Option Bytes → Bytes
or_empty none = []
or_empty (some text) = text
