-- ===== src/Http/Request.antt =====
-- `class Request` (librcom/include/rcom/Request.h, librcom/src/Request.cpp) and the test of
-- librcom/src/util.cpp that it uses.
use librcom.Base.{
  ℕ, zero, suc, Bool, true, false, not, ◌&&◌, ◌||◌, Option, none, some, List, [], ◌∷◌, leb, ◌==◌,
  if◌then◌else◌, length, get_elem?, Bytes, codes, equal,
}
use mathlib.Core.Option

-- `IRequest::Method`
pub data Method : Type 0 where
  unsupported_method get_method : Method

abbrev pub Headers : Type 0
Headers = List (Bytes × Bytes)

pub record Request : Type 0 where
  pub method : Method
  pub uri : Bytes
  pub headers : Headers

abbrev pub new_request : Request
new_request = record { method = unsupported_method; uri = []; headers = [] }

-- The loop of `get_header_value`: the first header of that name. `none` where it returns false.
unfoldable pub get_header_value : Bytes → Headers → Option Bytes
get_header_value name [] = none
get_header_value name ((n, value) ∷ rest) =
    if equal name n then some value else get_header_value name rest

-- The texts of the exceptions of `assert_websocket`.
pub data RequestError : Type 0 where
  bad_http_method missing_key bad_key_length expected_closing invalid_key_char : RequestError
  bad_version bad_connection bad_upgrade : RequestError

pub data Check : Type 0 where
  passed : Check
  refused : RequestError → Check

infixl 5 ◌>>◌
abbrev pub ◌>>◌ : Check → Check → Check
passed >> k = k
refused e >> k = refused e

abbrev pub check : Bool → RequestError → Check
check true e = passed
check false e = refused e

-- `std::string::find(…) != npos`
unfoldable pub starts_with : Bytes → Bytes → Bool
starts_with [] s = true
starts_with (x ∷ t) [] = false
starts_with (x ∷ t) (y ∷ s) = x == y && starts_with t s

unfoldable pub contains : Bytes → Bytes → Bool
contains t [] = starts_with t []
contains t (y ∷ s) = starts_with t (y ∷ s) || contains t s

-- The class [a-zA-Z0-9+/].
unfoldable pub is_base64_char : ℕ → Bool
is_base64_char c =
    leb b'a' c && leb c b'z'
    || leb b'A' c && leb c b'Z'
    || leb b'0' c && leb c b'9'
    || c == b'+'
    || c == b'/'

-- [=]{0,n}
unfoldable pub matches_padding : ℕ → Bytes → Bool
matches_padding n [] = true
matches_padding zero (c ∷ s) = false
matches_padding (suc n) (c ∷ s) = c == b'=' && matches_padding n s

-- [a-zA-Z0-9+/]*[=]{0,2}
unfoldable pub matches_base64 : Bytes → Bool
matches_base64 [] = true
matches_base64 (c ∷ s) = if is_base64_char c then matches_base64 s else matches_padding 2 (c ∷ s)

-- `is_base64_string`: the regular expression [a-zA-Z0-9+/]+[=]{0,2} fits the whole text.
unfoldable pub is_base64_string : Bytes → Bool
is_base64_string [] = false
is_base64_string (c ∷ s) = is_base64_char c && matches_base64 s

abbrev pub char_at : Bytes → ℕ → ℕ
char_at s i = Option.get_or (get_elem? s i) 0

unfoldable pub is_valid_websocket_key : Bytes → Check
is_valid_websocket_key key =
    if not (length key == 24)
    then refused bad_key_length
    else if not (char_at key 22 == b'=') || not (char_at key 23 == b'=')
    then refused expected_closing
    else if not (is_base64_string key)
    then refused invalid_key_char
    else passed

unfoldable pub http_method_is_get : Request → Check
http_method_is_get r = elim r.method [
  | get_method ↦ passed
  | unsupported_method ↦ refused bad_http_method
]

unfoldable pub has_valid_websocket_key : Request → Check
has_valid_websocket_key r = elim (get_header_value (codes "Sec-WebSocket-Key") r.headers) [
  | none ↦ refused missing_key
  | some key ↦ is_valid_websocket_key key
]

-- The value of a header passes a test; a missing header passes none.
abbrev pub header_test : Bytes → Headers → (Bytes → Bool) → Bool
header_test name headers test = elim (get_header_value name headers) [
  | none ↦ false
  | some value ↦ test value
]

unfoldable pub has_valid_websocket_version : Request → Check
has_valid_websocket_version r =
    check (header_test (codes "Sec-WebSocket-Version") r.headers (λ v. equal v (codes "13")))
      bad_version

unfoldable pub connection_header_is_upgrade : Request → Check
connection_header_is_upgrade r =
    check
      (header_test (codes "Connection") r.headers
        (λ v. contains (codes "Upgrade") v || contains (codes "upgrade") v))
      bad_connection

unfoldable pub upgrade_header_is_websocket : Request → Check
upgrade_header_is_websocket r =
    check (header_test (codes "Upgrade") r.headers (λ v. equal v (codes "websocket"))) bad_upgrade

unfoldable pub assert_websocket : Request → Check
assert_websocket r =
    http_method_is_get r
    >> has_valid_websocket_key r
    >> has_valid_websocket_version r
    >> connection_header_is_upgrade r
    >> upgrade_header_is_websocket r
