-- ===== src/Tests/JsonWorld.antt =====
-- A JSON library that satisfies the laws, with texts of its own.
use librcom.Base.{
  ℕ, zero, suc, ◌+◌, ◌≤◌, ◌≡◌, ◌≢◌, refl, sym, ap, ◌∙◌, arith, Bool, true, false, Option, none,
  some, [], ◌∷◌, ◌++◌, append-nil, append_assoc, length-append, ◌||◌, ◌==◌, if◌then◌else◌, length,
  take, drop, take-length_append, drop-length_append, Bytes, codes, equal, equal_iff, equal_refl,
  Bool-cases, inl, inr,
}
use librcom.Action.{Result, ok, throws}
use librcom.Json.{Json, IsJson}

pub data Value : Type 0 where
  nothing : Value
  truth : Bool → Value
  text : Bytes → Value
  number : ℕ → Value
  entry : Bytes → Value → Value → Value

unfoldable pub encode : Value → Bytes
encode nothing = 0 ∷ []
encode (text t) = 1 ∷ length t ∷ t
encode (number n) = 2 ∷ n ∷ []
encode (entry key value others) =
    let e = encode value in let r = encode others in 3 ∷ length key ∷ (key ++ (e ++ r))
encode (truth true) = 4 ∷ []
encode (truth false) = 5 ∷ []

-- The rounds that reading a value back takes.
size : Value → ℕ
size (entry key value others) = suc (size value + size others)
size _ = 1

-- A value in front of a text, and the rest of the text.
abbrev with_others : Bytes → Value → Option (Value × Bytes) → Option (Value × Bytes)
with_others key value none = none
with_others key value (some (others, rest)) = some (entry key value others, rest)

abbrev with_value :
    Bytes → (Bytes → Option (Value × Bytes)) → Option (Value × Bytes) → Option (Value × Bytes)
with_value key again none = none
with_value key again (some (value, rest)) = with_others key value (again rest)

pub decode : ℕ → Bytes → Option (Value × Bytes)
decode zero bytes = none
decode (suc fuel) (zero ∷ rest) = some (nothing, rest)
decode (suc fuel) (suc zero ∷ n ∷ rest) = some (text (take n rest), drop n rest)
decode (suc fuel) (suc (suc zero) ∷ n ∷ rest) = some (number n, rest)
decode (suc fuel) (suc (suc (suc zero)) ∷ n ∷ rest) =
    with_value (take n rest) (decode fuel) (decode fuel (drop n rest))
decode (suc fuel) (suc (suc (suc (suc b))) ∷ rest) = some (truth (b == 0), rest)
decode (suc fuel) _ = none

decode-encode :
    (fuel : ℕ) (v : Value) (rest : Bytes)
    → size v ≤ fuel
    → decode fuel (encode v ++ rest) ≡ some (v, rest)
unfolding decode encode size
decode-encode zero nothing rest h = absurd (omega arith)
decode-encode zero (truth b) rest h = absurd (omega arith)
decode-encode zero (text t) rest h = absurd (omega arith)
decode-encode zero (number n) rest h = absurd (omega arith)
decode-encode zero (entry key value others) rest h = absurd (omega arith)
decode-encode (suc fuel) nothing rest h = refl
decode-encode (suc fuel) (truth true) rest h = refl
decode-encode (suc fuel) (truth false) rest h = refl
decode-encode (suc fuel) (text t) rest h = rw (take-length_append, drop-length_append) refl
decode-encode (suc fuel) (number n) rest h = refl
decode-encode (suc fuel) (entry key value others) rest h =
    rw
      (
        append_assoc key (encode value ++ encode others) rest,
        take-length_append,
        drop-length_append,
        append_assoc (encode value) (encode others) rest,
        decode-encode fuel value (encode others ++ rest) (omega arith),
        decode-encode fuel others rest (omega arith),
      )
      refl

abbrev pub read_value : Option (Value × Bytes) → Result Bytes Value
read_value none = throws (codes "parse error")
read_value (some (value, rest)) = ok value

-- A text has at least one number for each round.
size-encode : (v : Value) → size v ≤ length (encode v)
unfolding size encode
size-encode nothing = omega arith
size-encode (truth true) = omega arith
size-encode (truth false) = omega arith
size-encode (text t) = omega arith
size-encode (number n) = omega arith
size-encode (entry key value others) = omega (
  arith,
  size-encode value,
  size-encode others,
  length-append key (encode value ++ encode others),
  length-append (encode value) (encode others),
)

abbrev value_at : Bytes → Value → Result Bytes Value
value_at key nothing = ok nothing
value_at key (entry other value others) =
    let rest = value_at key others in if equal other key then ok value else rest
value_at key _ = throws (codes "type error")

abbrev value_contains : Bytes → Value → Bool
value_contains key (entry other value others) = equal other key || value_contains key others
value_contains key _ = false

abbrev value_is_null : Value → Bool
value_is_null nothing = true
value_is_null _ = false

abbrev value_string : Value → Result Bytes Bytes
value_string (text t) = ok t
value_string _ = throws (codes "type error")

abbrev value_number : Value → Result Bytes ℕ
value_number (number n) = ok n
value_number _ = throws (codes "type error")

abbrev value_bool : Value → Result Bytes Bool
value_bool (truth b) = ok b
value_bool _ = throws (codes "type error")

abbrev pub test_json : Json Value
test_json = record {
  parse = λ bytes. read_value (decode (length bytes) bytes);
  dump = λ v. ok (encode v);
  null = nothing;
  is_null = value_is_null;
  contains = value_contains;
  at = value_at;
  insert = entry;
  string = text;
  integer = number;
  boolean = truth;
  get_string = value_string;
  get_int16 = value_number;
  get_bool = value_bool;
}

abbrev IsEntry : Value → Type 0
IsEntry nothing = Unit
IsEntry (entry key value others) = Unit
IsEntry _ = ⊥

pub unequal : (a b : Bytes) → a ≢ b → equal a b ≡ false
unequal a b h = elim (Bool-cases (equal a b)) [
  | inl same ↦ absurd (h ((equal_iff a b).0 same))
  | inr apart ↦ apart
]

pub value-null : (v : Value) → value_is_null v ≡ true → v ≡ nothing
value-null nothing e = refl
value-null (truth b) e = absurd (cc e)
value-null (text t) e = absurd (cc e)
value-null (number n) e = absurd (cc e)
value-null (entry key value others) e = absurd (cc e)

decode-all : (v : Value) → decode (length (encode v)) (encode v) ≡ some (v, [])
decode-all v =
    ap (decode (length (encode v))) (sym (append-nil (encode v)))
    ∙ decode-encode (length (encode v)) v [] (size-encode v)

pub value_parse_dump :
    (v : Value) (bytes : Bytes)
    → test_json.dump v ≡ ok bytes
    → read_value (decode (length bytes) bytes) ≡ ok v
value_parse_dump v bytes e = let same : encode v ≡ bytes = cc e in rw (← same, decode-all v) refl

pub value_contains_at :
    (key : Bytes) (v : Value)
    → value_contains key v ≡ true
    → (value : Value) × (value_at key v ≡ ok value)
value_contains_at key nothing e = absurd (cc e)
value_contains_at key (truth b) e = absurd (cc e)
value_contains_at key (text t) e = absurd (cc e)
value_contains_at key (number n) e = absurd (cc e)
value_contains_at key (entry other value others) e = elim (Bool-cases (equal other key)) [
  | inl here ↦ (value, rw here refl)
  | inr behind ↦
      let (found, there) = value_contains_at key others (rw behind at e) in (found, rw behind there)
]

abbrev pub test_IsJson : IsJson test_json
test_IsJson = record {
  IsObject = IsEntry;
  null_IsObject = tt;
  insert_IsObject = λ key value v h. tt;
  null_is_null = value-null;
  null_contains = λ key. refl;
  null_at = λ key. refl;
  get_string_null = (codes "type error", refl);
  contains_insert = λ key value v h. rw (equal_refl key) refl;
  contains_insert_other = λ key other value v h apart. rw (unequal key other apart) refl;
  contains_at = value_contains_at;
  at_insert = λ key value v h. rw (equal_refl key) refl;
  at_insert_other = λ key other value v h apart. rw (unequal key other apart) refl;
  IsStable = λ j. Unit;
  null_IsStable = tt;
  string_IsStable = λ text. tt;
  integer_IsStable = λ n. tt;
  insert_IsStable = λ key value j h k. tt;
  parse_dump = λ j text h. value_parse_dump j text;
  get_string_string = λ t. refl;
  get_int16_integer = λ n h. refl;
  get_bool_boolean = λ b. refl;
}

pub encodes : (v : Value) → (bytes : Bytes) × (test_json.dump v ≡ ok bytes)
encodes v = (encode v, refl)
