-- ===== src/Http/Response.antt =====
-- `class Response` (librcom/include/rcom/Response.h, librcom/src/Response.cpp).
use librcom.Base.{
  ℕ, Bool, false, ◌||◌, Option, none, some, [], ◌==◌, if◌then◌else◌, Bytes, codes, equal,
}
use librcom.Http.Request.{Headers, get_header_value}

pub record Response : Type 0 where
  pub code : ℕ
  pub headers : Headers

abbrev pub new_response : Response
new_response = record { code = 0; headers = [] }

-- The texts of the exceptions of `assert_websocket`.
pub data ResponseError : Type 0 where
  expected_101 bad_connection_header bad_upgrade_header bad_accept_header : ResponseError

pub data ResponseCheck : Type 0 where
  accepted : ResponseCheck
  rejected : ResponseError → ResponseCheck

-- The next statement, where the one before has not thrown.
infixl 5 ◌>>◌
abbrev pub ◌>>◌ : ResponseCheck → ResponseCheck → ResponseCheck
accepted >> k = k
rejected e >> k = rejected e

abbrev pub require : Bool → ResponseError → ResponseCheck
require valid e = if valid then accepted else rejected e

-- What `header_equals` makes of the answer of `get_header_value`.
abbrev pub value_equals : Option Bytes → Bytes → Bool
value_equals none expected = false
value_equals (some value) expected = equal value expected

unfoldable pub header_equals : Bytes → Bytes → Response → Bool
header_equals name expected r = value_equals (get_header_value name r.headers) expected

unfoldable pub status_equals_101 : Response → ResponseCheck
status_equals_101 r = require (r.code == 101) expected_101

unfoldable pub connection_header_equals_upgrade : Response → ResponseCheck
connection_header_equals_upgrade r =
    require
      (header_equals (codes "Connection") (codes "Upgrade") r
        || header_equals (codes "Connection") (codes "upgrade") r)
      bad_connection_header

unfoldable pub upgrade_header_equals_websocket : Response → ResponseCheck
upgrade_header_equals_websocket r =
    require (header_equals (codes "Upgrade") (codes "websocket") r) bad_upgrade_header

unfoldable pub accept_header_is_valid : Bytes → Response → ResponseCheck
accept_header_is_valid accept r =
    require (header_equals (codes "Sec-WebSocket-Accept") accept r) bad_accept_header

unfoldable pub assert_websocket : Bytes → Response → ResponseCheck
assert_websocket accept r =
    status_equals_101 r
    >> connection_header_equals_upgrade r
    >> upgrade_header_equals_websocket r
    >> accept_header_is_valid accept r
