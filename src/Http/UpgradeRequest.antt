-- ===== src/Http/UpgradeRequest.antt =====
-- Which requests the server takes for the beginning of the opening handshake: Request.cpp
-- `assert_websocket`.
use mathlib.Core.Path.{subst}
use librcom.Base.{
  ◌≡◌, ◌⊎◌, inl, inr, refl, true, false, Bool, Bool-cases, Option, none, some, [], ◌∷◌, ◌==◌,
  ==_iff, length, Bytes, codes, equal, equal_iff,
}
use librcom.Http.FirstHeader.{
  IsFirst, get_header_value_iff, Occurs, contains-Occurs, IsNonceText, matches_base64-IsNonceText,
}
use librcom.Http.Request.{
  Request, Headers, Method, get_method, unsupported_method, RequestError, missing_key, Check,
  passed, refused, check, get_header_value, header_test, assert_websocket, http_method_is_get,
  is_base64_string, is_base64_char, matches_base64, char_at, is_valid_websocket_key,
  has_valid_websocket_key, has_valid_websocket_version, connection_header_is_upgrade,
  upgrade_header_is_websocket, ◌>>◌,
}
use librcom.Http.Upgrade.{either}

-- Only a check that passes is followed by the next.
>>-passed : (a b : Check) → (a >> b) ≡ passed → (a ≡ passed) × (b ≡ passed)
>>-passed passed b e = (refl, e)
>>-passed (refused what) b e = absurd (cc e)

abbrev pub key_name : Bytes
key_name = codes "Sec-WebSocket-Key"

-- What the tests ask of a request, described apart from the code.
pub record IsUpgradeRequest (request : Request) (key : Bytes) : Type 0 where
  pub method_is_get : request.method ≡ get_method
  pub has_key : IsFirst key_name key request.headers
  pub key_form : IsNonceText 22 key
  pub version : IsFirst (codes "Sec-WebSocket-Version") (codes "13") request.headers
  pub connection :
      (value : Bytes) × IsFirst (codes "Connection") value request.headers
      × (Occurs (codes "Upgrade") value ⊎ Occurs (codes "upgrade") value)
  pub upgrade : IsFirst (codes "Upgrade") (codes "websocket") request.headers

check-passed : (b : Bool) (what : RequestError) → check b what ≡ passed → b ≡ true
check-passed true what e = refl
check-passed false what e = absurd (cc e)

some_tested :
    (test : Bytes → Bool) (o : Option Bytes)
    → (elim o [ none ↦ false | some value ↦ test value ]) ≡ true
    → (value : Bytes) × (o ≡ some value) × (test value ≡ true)
some_tested test none e = absurd (cc e)
some_tested test (some value) e = (value, refl, e)

-- A test of a header that passes has found one.
header_test-found :
    (name : Bytes) (headers : Headers) (test : Bytes → Bool)
    → header_test name headers test ≡ true
    → (value : Bytes) × IsFirst name value headers × (test value ≡ true)
header_test-found name headers test e =
    let (value, there, passes) = some_tested test (get_header_value name headers) e in
    (value, (get_header_value_iff name value headers).0 there, passes)

header_is :
    (name expected : Bytes) (headers : Headers)
    → header_test name headers (λ v. equal v expected) ≡ true
    → IsFirst name expected headers
header_is name expected headers e =
    let (value, first, same) = header_test-found name headers (λ v. equal v expected) e in
    subst (λ v. IsFirst name v headers) ((equal_iff value expected).0 same) first

method_get : (r : Request) → http_method_is_get r ≡ passed → r.method ≡ get_method
unfolding http_method_is_get
method_get r e = by_method r.method refl
  where
    by_method : (m : Method) → r.method ≡ m → m ≡ get_method
    by_method get_method same = refl
    by_method unsupported_method same = absurd (cc (rw same at e))

base64_text : (key : Bytes) → is_base64_string key ≡ true → matches_base64 key ≡ true
unfolding is_base64_string matches_base64
base64_text [] e = refl
base64_text (c ∷ key) e = elim (Bool-cases (is_base64_char c)) [
  | inl letter ↦ rw letter (rw letter at e)
  | inr other ↦ absurd (cc (rw other at e))
]

valid_key : (key : Bytes) → is_valid_websocket_key key ≡ passed → IsNonceText 22 key
unfolding is_valid_websocket_key
valid_key key e = elim (Bool-cases (length key == 24)) [
  | inr other ↦ absurd (cc (rw other at e))
  | inl fits ↦ elim (Bool-cases (char_at key 22 == b'=')) [
    | inr other ↦ absurd (cc (rw (fits, other) at e))
    | inl first ↦ elim (Bool-cases (char_at key 23 == b'=')) [
      | inr other ↦ absurd (cc (rw (fits, first, other) at e))
      | inl second ↦ elim (Bool-cases (is_base64_string key)) [
        | inr other ↦ absurd (cc (rw (fits, first, second, other) at e))
        | inl text ↦
            matches_base64-IsNonceText 22 key (base64_text key text)
              ((==_iff (length key) 24).0 fits) ((==_iff (char_at key 22) b'=').0 first)
              ((==_iff (char_at key 23) b'=').0 second)
      ]
    ]
  ]
]

key_tested :
    (o : Option Bytes)
    → (elim o [ none ↦ refused missing_key | some key ↦ is_valid_websocket_key key ]) ≡ passed
    → (key : Bytes) × (o ≡ some key) × IsNonceText 22 key
key_tested none e = absurd (cc e)
key_tested (some key) e = (key, refl, valid_key key e)

found_key :
    (r : Request)
    → has_valid_websocket_key r ≡ passed
    → (key : Bytes) × (get_header_value key_name r.headers ≡ some key) × IsNonceText 22 key
unfolding has_valid_websocket_key
found_key r e = key_tested (get_header_value key_name r.headers) e

pub assert_websocket-IsUpgradeRequest :
    (r : Request)
    → assert_websocket r ≡ passed
    → (key : Bytes) × (get_header_value key_name r.headers ≡ some key) × IsUpgradeRequest r key
unfolding assert_websocket has_valid_websocket_version connection_header_is_upgrade
    upgrade_header_is_websocket
assert_websocket-IsUpgradeRequest r e =
    let (four, fifth) = >>-passed _ (upgrade_header_is_websocket r) e in
    let (three, fourth) = >>-passed _ (connection_header_is_upgrade r) four in
    let (two, third) = >>-passed _ (has_valid_websocket_version r) three in
    let (first, second) = >>-passed (http_method_is_get r) (has_valid_websocket_key r) two in
    let (key, there, form) = found_key r second in
    let (value, connects, says) =
      header_test-found (codes "Connection") r.headers _ (check-passed _ _ fourth) in
    (
      key,
      there,
      record {
        method_is_get = method_get r first;
        has_key = (get_header_value_iff key_name key r.headers).0 there;
        key_form = form;
        version =
            header_is (codes "Sec-WebSocket-Version") (codes "13") r.headers
              (check-passed _ _ third);
        connection = (
          value,
          connects,
          elim ((either _ _).0 says) [
            | inl upper ↦ inl (contains-Occurs (codes "Upgrade") value upper)
            | inr lower ↦ inr (contains-Occurs (codes "upgrade") value lower)
          ],
        );
        upgrade =
            header_is (codes "Upgrade") (codes "websocket") r.headers (check-passed _ _ fifth);
      },
    )
