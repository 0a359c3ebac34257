-- ===== src/Tests/FlatQt.antt =====
-- A small library with the behaviour that the client's codec relies on, over the documents of
-- Tests.FlatJson: a string is its bytes, and a number the document's number.
use ccmeeting.Common.{
  ℕ, ◌+◌, ◌≡◌, refl, sym, ap, ◌∙◌, inl, inr, Option, none, some, [], ◌∷◌, ◌==◌, if◌then◌else◌,
  Bool-cases, some_inj, length, Bytes, bytes_eq, if_true, if_false,
}
use ccmeeting.Base64.{base64_encode, base64_decode}
use ccmeeting.Base64.RoundTrip.{base64_decode-encode}
use ccmeeting.Client.Qt.{Qt, IsQt}
use ccmeeting.Client.Interop
use ccmeeting.Client.Interop.{
  IsInterop, Value, Members, found, document_with, object_with, Shows, Holds, base64_encode_ascii,
  ascii-IsBytes,
}
use ccmeeting.Tests.FlatJson.{
  flat_json, or_empty, Doc, print, parse, find, is_some, as_string, as_number, scan-print,
  find-set_self, find-set, find-set_other, contains-set,
}

abbrev or_none : Option ℕ → ℕ
or_none none = 0
or_none (some n) = n

abbrev pub flat_qt : Qt
flat_qt = record {
  Str = Bytes;
  from_utf8 = λ b. b;
  to_utf8 = λ s. s;
  from_latin1 = λ b. b;
  to_latin1 = λ s. s;
  is_empty = λ s. length s == 0;
  number = λ n. (48 + n) ∷ [];
  equals_latin1 = bytes_eq;
  to_base64 = base64_encode;
  from_base64 = base64_decode;
  trimmed = λ b. b;
  Double = ℕ;
  to_double = λ n. n;
  to_int64 = λ n. n;
  Object = Doc;
  empty_object = [];
  insert_string = λ d k v. k ∷ (0 ∷ v) ∷ d;
  insert_double = λ d k v. k ∷ (1 ∷ v ∷ []) ∷ d;
  contains = λ d k. is_some (find k d);
  value_string = λ d k. or_empty (as_string [] (find k d));
  value_double = λ d k. or_none (as_number 0 (find k d));
  Document = Doc;
  to_json = λ d. b'{' ∷ print d;
  from_json = parse;
  object = some;
}

value-insert :
    (o : Doc) (k l s : Bytes)
    → or_empty (as_string [] (find l (k ∷ (0 ∷ s) ∷ o)))
      ≡ (if bytes_eq k l then s else or_empty (as_string [] (find l o)))
value-insert o k l s = elim (Bool-cases (bytes_eq k l)) [
  | inl e ↦ rw (find-set k l (0 ∷ s) o, e) refl
  | inr e ↦ rw (find-set k l (0 ∷ s) o, e) refl
]

pub flat_qt-IsQt : IsQt flat_qt
flat_qt-IsQt = record {
  equals_latin1-from_latin1 = λ a b. refl;
  to_latin1-from_latin1 = λ b h. refl;
  from_utf8_ascii = λ b h. refl;
  to_utf8-from_latin1_ascii = λ b h. refl;
  from_base64-to_base64 = base64_decode-encode;
  to_base64-IsBytes = λ b h. ascii-IsBytes (base64_encode b) (base64_encode_ascii b);
  to_int64-to_double = λ n h. refl;
  contains-empty = λ k. refl;
  contains-insert_string = λ o k l s. contains-set k l (0 ∷ s) o;
  contains-insert_double = λ o k l d. contains-set k l (1 ∷ d ∷ []) o;
  value_string-insert_string = value-insert;
  value_string-insert_double =
      λ o k l d h. ap (λ v. or_empty (as_string [] v)) (find-set_other k l (1 ∷ d ∷ []) o h);
  value_double-insert_double =
      λ o k d. ap (λ v. or_none (as_number 0 v)) (find-set_self k (1 ∷ d ∷ []) o);
  value_double-insert_string =
      λ o k l s h. ap (λ v. or_none (as_number 0 v)) (find-set_other k l (0 ∷ s) o h);
  Regular = λ o. Unit;
  empty-Regular = tt;
  insert_utf8-Regular = λ o k b h. tt;
  insert_latin1-Regular = λ o k b h. tt;
  insert_double-Regular = λ o k n h. tt;
  from_json-to_json = λ o h. (o, ap some (scan-print o), refl);
  trimmed-to_json = λ o. refl;
  to_json_brace = λ o. (print o, refl);
}

-- What the list of keys and values has for a member.
abbrev stored : Option Value → Option Bytes
stored none = none
stored (some (Interop.text b)) = some (0 ∷ b)
stored (some (Interop.number n)) = some (1 ∷ n ∷ [])

find-set_found :
    (l k c : Bytes) (d : Doc) (v : Value) (w : Option Value)
    → stored (some v) ≡ some c
    → find k d ≡ stored w
    → find k (l ∷ c ∷ d) ≡ stored (if bytes_eq l k then some v else w)
find-set_found l k c d v w e h = elim (Bool-cases (bytes_eq l k)) [
  | inl f ↦
      find-set l k c d
      ∙ if_true f (some c) (find k d)
      ∙ sym e
      ∙ ap stored (sym (if_true f (some v) w))
  | inr f ↦
      find-set l k c d
      ∙ if_false f (some c) (find k d)
      ∙ h
      ∙ ap stored (sym (if_false f (some v) w))
]

find-document_with :
    (k : Bytes) (members : Members)
    → find k (document_with flat_json members) ≡ stored (found k members)
find-document_with k [] = refl
find-document_with k ((l, Interop.text b) ∷ members) =
    find-set_found l k (0 ∷ b) _ (Interop.text b) (found k members) refl
      (find-document_with k members)
find-document_with k ((l, Interop.number n) ∷ members) =
    find-set_found l k (1 ∷ n ∷ []) _ (Interop.number n) (found k members) refl
      (find-document_with k members)

object_with-eq : (members : Members) → object_with flat_qt members ≡ document_with flat_json members
object_with-eq [] = refl
object_with-eq ((l, Interop.text b) ∷ members) =
    ap (λ (d : Doc). l ∷ (0 ∷ b) ∷ d) (object_with-eq members)
object_with-eq ((l, Interop.number n) ∷ members) =
    ap (λ (d : Doc). l ∷ (1 ∷ n ∷ []) ∷ d) (object_with-eq members)

stored-Shows :
    (d : Doc) (k : Bytes) (v : Option Value) → find k d ≡ stored v → Shows flat_json d k v
stored-Shows d k none e = rw e refl
stored-Shows d k (some (Interop.text b)) e = (rw e refl, λ default. rw e refl)
stored-Shows d k (some (Interop.number n)) e = (rw e refl, λ default. rw e refl)

stored-Holds : (d : Doc) (k : Bytes) (v : Option Value) → find k d ≡ stored v → Holds flat_qt d k v
stored-Holds d k none e = rw e refl
stored-Holds d k (some (Interop.text b)) e = (rw e refl, rw e refl)
stored-Holds d k (some (Interop.number n)) e = (rw e refl, rw e refl)

pub flat-IsInterop : IsInterop flat_json flat_qt
flat-IsInterop = record {
  parse-to_json = λ members h. (
    object_with flat_qt members,
    ap some (scan-print (object_with flat_qt members)),
    λ k.
        stored-Shows (object_with flat_qt members) k (found k members)
          (ap (find k) (object_with-eq members) ∙ find-document_with k members),
  );
  from_json-dump = λ m members h json e.
      let d = document_with flat_json (m ∷ members) in
      (
        d,
        d,
        ap parse (sym (some_inj e)) ∙ ap some (scan-print d),
        refl,
        λ k. stored-Holds d k (found k (m ∷ members)) (find-document_with k (m ∷ members)),
      );
  to_base64-standard = λ b h. refl;
}
