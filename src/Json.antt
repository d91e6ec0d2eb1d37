-- ===== src/Json.antt =====
-- What the sources use of the library nlohmann::json (librcom/include/rcom/json.hpp is a copy of it):
-- an interface with the operations, and its documented laws. An exception is its text.
pub mod Plain
use librcom.Base.{ℕ, ◌<◌, ◌^◌, Bool, true, false, ◌≡◌, ◌≢◌, Bytes}
use librcom.Action.{Result, ok, throws}

-- `at` is `operator[]` where it reads, which gives null for a missing key; `insert` is the
-- assignment to a key of null or of an object; `integer` and `get_int16` carry an int16_t as a number
-- below 2^16.
pub record Json (J : Type 0) : Type 0 where
  pub parse : Bytes → Result Bytes J
  pub dump : J → Result Bytes Bytes
  pub null : J
  pub is_null : J → Bool
  pub contains : Bytes → J → Bool
  pub at : Bytes → J → Result Bytes J
  pub insert : Bytes → J → J → J
  pub string : Bytes → J
  pub integer : ℕ → J
  pub boolean : Bool → J
  pub get_string : J → Result Bytes Bytes
  pub get_int16 : J → Result Bytes ℕ
  pub get_bool : J → Result Bytes Bool

-- The laws; `IsObject` tells the values that keys may be assigned to, `IsStable` those that are read
-- back as they were, which a number that is not finite is not (it is written as null).
pub record IsJson {J : Type 0} (json : Json J) : Type 1 where
  pub IsObject : J → Type 0
  pub null_IsObject : IsObject json.null
  pub insert_IsObject :
      (key : Bytes) (value j : J) → IsObject j → IsObject (json.insert key value j)
  pub null_is_null : (j : J) → json.is_null j ≡ true → j ≡ json.null
  pub null_contains : (key : Bytes) → json.contains key json.null ≡ false
  pub null_at : (key : Bytes) → json.at key json.null ≡ ok json.null
  pub get_string_null : (what : Bytes) × (json.get_string json.null ≡ throws what)
  pub contains_insert :
      (key : Bytes) (value j : J) → IsObject j → json.contains key (json.insert key value j) ≡ true
  pub contains_insert_other :
      (key other : Bytes) (value j : J)
      → IsObject j
      → key ≢ other
      → json.contains other (json.insert key value j) ≡ json.contains other j
  pub at_insert :
      (key : Bytes) (value j : J) → IsObject j → json.at key (json.insert key value j) ≡ ok value
  pub at_insert_other :
      (key other : Bytes) (value j : J)
      → IsObject j
      → key ≢ other
      → json.at other (json.insert key value j) ≡ json.at other j
  pub contains_at :
      (key : Bytes) (j : J) → json.contains key j ≡ true → (value : J) × (json.at key j ≡ ok value)
  pub IsStable : J → Type 0
  pub null_IsStable : IsStable json.null
  pub string_IsStable : (text : Bytes) → IsStable (json.string text)
  pub integer_IsStable : (n : ℕ) → IsStable (json.integer n)
  pub insert_IsStable :
      (key : Bytes) (value j : J) → IsStable value → IsStable j → IsStable (json.insert key value j)
  pub parse_dump :
      (j : J) (text : Bytes) → IsStable j → json.dump j ≡ ok text → json.parse text ≡ ok j
  pub get_string_string : (text : Bytes) → json.get_string (json.string text) ≡ ok text
  pub get_int16_integer : (n : ℕ) → n < 2 ^ 16 → json.get_int16 (json.integer n) ≡ ok n
  pub get_bool_boolean : (b : Bool) → json.get_bool (json.boolean b) ≡ ok b
