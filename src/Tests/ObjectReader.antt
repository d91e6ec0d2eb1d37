-- ===== src/Tests/ObjectReader.antt =====
-- A JSON library that reads plain objects too.
use librcom.Base.{
  ℕ, zero, suc, ◌≤◌, ◌<◌, ◌≡◌, refl, ◌∙◌, arith, true, false, Option, none, some, List, [], ◌∷◌,
  ◌++◌, ◌==◌, if◌then◌else◌, length, length-append, drop, Bytes, codes, All,
}
use librcom.Action.{Result, ok, throws}
use librcom.Json.{Json, IsJson}
use librcom.Json.Plain.{
  Field, loose, tight, flag, is_plain_char, IsPlainText, IsPlainField, field_text, members_text,
  object_text, put_field, object_of, ReadsObjects,
}
use librcom.Tests.JsonWorld.{
  Value, nothing, truth, text, number, entry, encode, decode, read_value, test_json, test_IsJson,
}

abbrev first_code : Bytes → ℕ
first_code [] = 0
first_code (c ∷ cs) = c

abbrev longer : ℕ → Option (Bytes × Bytes) → Option (Bytes × Bytes)
longer c none = none
longer c (some (front, rest)) = some (c ∷ front, rest)

-- Up to the next quote.
read_string : Bytes → Option (Bytes × Bytes)
read_string [] = none
read_string (c ∷ cs) =
    let others = read_string cs in if c == b'"' then some ([], cs) else longer c others

plain-no_quote : (c : ℕ) → is_plain_char c ≡ true → (c == b'"') ≡ false
unfolding is_plain_char
plain-no_quote c h = ground arith

read_string-plain :
    (t rest : Bytes) → IsPlainText t → read_string (t ++ b'"' ∷ rest) ≡ some (t, rest)
unfolding read_string
read_string-plain [] rest h = refl
read_string-plain (c ∷ t) rest h = rw (plain-no_quote c h.0, read_string-plain t rest h.1) refl

-- One member.
abbrev string_member : Bytes → Option (Bytes × Bytes) → Option (Bytes × Value × Bytes)
string_member key none = none
string_member key (some (value, rest)) = some (key, text value, rest)

read_member_value : Bytes → Bytes → Option (Bytes × Value × Bytes)
read_member_value key rest =
    if first_code rest == b'"'
    then string_member key (read_string (drop 1 rest))
    else if first_code rest == b't'
    then some (key, truth true, drop 4 rest)
    else some (key, truth false, drop 5 rest)

abbrev behind_key : Option (Bytes × Bytes) → Option (Bytes × Value × Bytes)
behind_key none = none
behind_key (some (key, rest)) =
    if first_code (drop 1 rest) == b' '
    then read_member_value key (drop 2 rest)
    else read_member_value key (drop 1 rest)

read_member : Bytes → Option (Bytes × Value × Bytes)
read_member bytes = behind_key (read_string (drop 1 bytes))

abbrev member_of : Field → Bytes → Bytes × Value × Bytes
member_of (loose key value) rest = (key, text value, rest)
member_of (tight key value) rest = (key, text value, rest)
member_of (flag key b) rest = (key, truth b, rest)

read_member-field_text :
    (field : Field) (rest : Bytes)
    → IsPlainField field
    → read_member (field_text field rest) ≡ some (member_of field rest)
unfolding read_member read_member_value
read_member-field_text (loose key value) rest h =
    rw (read_string-plain key (codes ": \"" ++ (value ++ (b'"' ∷ rest))) h.0)
      (rw (read_string-plain value rest h.1) refl)
read_member-field_text (tight key value) rest h =
    rw (read_string-plain key (codes ":\"" ++ (value ++ (b'"' ∷ rest))) h.0)
      (rw (read_string-plain value rest h.1) refl)
read_member-field_text (flag key true) rest h =
    rw (read_string-plain key (codes ":true" ++ rest) h) refl
read_member-field_text (flag key false) rest h =
    rw (read_string-plain key (codes ":false" ++ rest) h) refl

-- The members in turn.
abbrev put_member :
    Option (Bytes × Value × Bytes)
    → Value
    → (Value → Bytes → Option (Value × Bytes))
    → Option (Value × Bytes)
put_member none v again = none
put_member (some (key, value, rest)) v again =
    if first_code rest == b','
    then again (entry key value v) (drop 2 rest)
    else some (entry key value v, drop 1 rest)

pub read_members : ℕ → Value → Bytes → Option (Value × Bytes)
read_members zero v bytes = none
read_members (suc fuel) v bytes = put_member (read_member bytes) v (read_members fuel)

read_members-text :
    (fuel : ℕ) (field : Field) (fields : List Field) (v : Value)
    → length (field ∷ fields) ≤ fuel
    → IsPlainField field
    → All IsPlainField fields
    → read_members fuel v (members_text (field ∷ fields))
      ≡ some (object_of test_json (field ∷ fields) v, [])
unfolding read_members
read_members-text zero field fields v h f fs = absurd (omega arith)
read_members-text (suc fuel) field [] v h f fs =
    rw (read_member-field_text field (codes "}") f) (last field)
  where
    last :
        (field : Field)
        → put_member (some (member_of field (codes "}"))) v (read_members fuel)
          ≡ some (put_field test_json field v, [])
    last (loose key value) = refl
    last (tight key value) = refl
    last (flag key b) = refl
read_members-text (suc fuel) field (other ∷ fields) v h f fs =
    let rest = members_text (other ∷ fields) in
    rw (read_member-field_text field (b',' ∷ b' ' ∷ rest) f) (
      one field
      ∙ read_members-text fuel other fields (put_field test_json field v) (omega arith) fs.0 fs.1)
  where
    one :
        (field : Field)
        → put_member
            (some (member_of field (b',' ∷ b' ' ∷ members_text (other ∷ fields))))
            v
            (read_members fuel)
          ≡ read_members fuel (put_field test_json field v) (members_text (other ∷ fields))
    one (loose key value) = refl
    one (tight key value) = refl
    one (flag key b) = refl

field_text-longer : (field : Field) (rest : Bytes) → length rest < length (field_text field rest)
field_text-longer (loose key value) rest = omega (
  arith,
  length-append key (codes "\": \"" ++ (value ++ (b'"' ∷ rest))),
  length-append value (b'"' ∷ rest),
)
field_text-longer (tight key value) rest = omega (
  arith,
  length-append key (codes "\":\"" ++ (value ++ (b'"' ∷ rest))),
  length-append value (b'"' ∷ rest),
)
field_text-longer (flag key true) rest = omega (arith, length-append key (codes "\":true" ++ rest))
field_text-longer (flag key false) rest =
    omega (arith, length-append key (codes "\":false" ++ rest))

members_text-long :
    (field : Field) (fields : List Field)
    → length (field ∷ fields) ≤ length (members_text (field ∷ fields))
members_text-long field [] = omega (arith, field_text-longer field (codes "}"))
members_text-long field (other ∷ fields) = omega (
  arith,
  members_text-long other fields,
  field_text-longer field (b',' ∷ b' ' ∷ members_text (other ∷ fields)),
)

pub read_text : Bytes → Result Bytes Value
read_text [] = throws (codes "empty")
read_text (c ∷ cs) =
    if c == b'{'
    then read_value (read_members (length cs) nothing cs)
    else read_value (decode (length (c ∷ cs)) (c ∷ cs))

abbrev pub object_json : Json Value
object_json = record test_json { parse = read_text }

pub read_text-encode :
    (v : Value) (bytes : Bytes) → object_json.dump v ≡ ok bytes → read_text bytes ≡ ok v
unfolding read_text encode
read_text-encode v bytes e =
    let same : encode v ≡ bytes = cc e in
    rw (← same) (own v (test_IsJson.parse_dump v (encode v) tt refl))
  where
    own :
        (v : Value)
        → read_value (decode (length (encode v)) (encode v)) ≡ ok v
        → read_text (encode v) ≡ ok v
    own nothing h = h
    own (truth true) h = h
    own (truth false) h = h
    own (text t) h = h
    own (number n) h = h
    own (entry key value others) h = h

abbrev pub object_IsJson : IsJson object_json
object_IsJson = record {
  IsObject = test_IsJson.IsObject;
  null_IsObject = test_IsJson.null_IsObject;
  insert_IsObject = test_IsJson.insert_IsObject;
  null_is_null = test_IsJson.null_is_null;
  null_contains = test_IsJson.null_contains;
  null_at = test_IsJson.null_at;
  get_string_null = test_IsJson.get_string_null;
  contains_insert = test_IsJson.contains_insert;
  contains_insert_other = test_IsJson.contains_insert_other;
  contains_at = test_IsJson.contains_at;
  at_insert = test_IsJson.at_insert;
  at_insert_other = test_IsJson.at_insert_other;
  IsStable = test_IsJson.IsStable;
  null_IsStable = tt;
  string_IsStable = λ text. tt;
  integer_IsStable = λ n. tt;
  insert_IsStable = λ key value j h k. tt;
  parse_dump = λ j text h. read_text-encode j text;
  get_string_string = test_IsJson.get_string_string;
  get_int16_integer = test_IsJson.get_int16_integer;
  get_bool_boolean = test_IsJson.get_bool_boolean;
}

pub read_text-object :
    (field : Field) (fields : List Field)
    → IsPlainField field
    → All IsPlainField fields
    → read_text (object_text (field ∷ fields)) ≡ ok (object_of test_json (field ∷ fields) nothing)
unfolding read_text
read_text-object field fields f fs =
    rw
      (read_members-text (length (members_text (field ∷ fields))) field fields nothing
        (members_text-long field fields) f fs)
      refl

abbrev pub object_ReadsObjects : ReadsObjects object_json
object_ReadsObjects = record { reads_object = read_text-object }
