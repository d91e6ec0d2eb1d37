-- ===== src/Http/Upgrade.antt =====
-- Which responses the client takes for the end of the opening handshake: Response.cpp
-- `assert_websocket`.
use librcom.Base.{
  ◌≡◌, ◌↔◌, ◌⊎◌, inl, inr, refl, ap, Bool, true, false, ◌||◌, Option, none, some, ==_iff, Bytes,
  codes, equal_iff,
}
use librcom.Http.FirstHeader.{IsFirst, get_header_value_iff}
use librcom.Http.Request.{get_header_value}
use librcom.Http.Response.{
  Response, ResponseCheck, ResponseError, accepted, rejected, require, value_equals, header_equals,
  status_equals_101, connection_header_equals_upgrade, upgrade_header_equals_websocket,
  accept_header_is_valid, assert_websocket, ◌>>◌,
}

value_equals_iff :
    (o : Option Bytes) (expected : Bytes) → (value_equals o expected ≡ true) ↔ (o ≡ some expected)
value_equals_iff none expected = (λ e. cc e, λ e. cc e)
value_equals_iff (some value) expected =
    (λ e. ap some ((equal_iff value expected).0 e), λ e. (equal_iff value expected).1 (cc e))

-- The response is a switch of protocols with the headers of a websocket.
pub record IsUpgrade (accept : Bytes) (r : Response) : Type 0 where
  pub switches : r.code ≡ 101
  pub connection :
      IsFirst (codes "Connection") (codes "Upgrade") r.headers
      ⊎ IsFirst (codes "Connection") (codes "upgrade") r.headers
  pub upgrade : IsFirst (codes "Upgrade") (codes "websocket") r.headers
  pub accepts : IsFirst (codes "Sec-WebSocket-Accept") accept r.headers

>>-accepted : (a b : ResponseCheck) → ((a >> b) ≡ accepted) ↔ ((a ≡ accepted) × (b ≡ accepted))
>>-accepted accepted b = (λ e. (refl, e), λ h. h.1)
>>-accepted (rejected e) b = (λ h. absurd (cc h), λ h. absurd (cc h.0))

require-accepted :
    (valid : Bool) (e : ResponseError) → (require valid e ≡ accepted) ↔ (valid ≡ true)
require-accepted true e = (λ h. refl, λ h. refl)
require-accepted false e = (λ h. absurd (cc h), λ h. absurd (cc h))

pub either : (a b : Bool) → ((a || b) ≡ true) ↔ ((a ≡ true) ⊎ (b ≡ true))
either true b = (λ h. inl refl, λ h. refl)
either false b = (inr, elim [ inl h ↦ absurd (cc h) | inr h ↦ h ])

module _ (accept : Bytes) (r : Response) where
  header_is :
      (name expected : Bytes)
      → (header_equals name expected r ≡ true) ↔ IsFirst name expected r.headers
  unfolding header_equals
  header_is name expected =
      let (to, from) = value_equals_iff (get_header_value name r.headers) expected in
      let (first, back) = get_header_value_iff name expected r.headers in
      (λ e. first (to e), λ h. from (back h))

  accepted→IsUpgrade : assert_websocket accept r ≡ accepted → IsUpgrade accept r
  unfolding assert_websocket status_equals_101 connection_header_equals_upgrade
      upgrade_header_equals_websocket accept_header_is_valid
  accepted→IsUpgrade h =
      let (three, last) =
        (>>-accepted
            (status_equals_101 r
              >> connection_header_equals_upgrade r
              >> upgrade_header_equals_websocket r)
            (accept_header_is_valid accept r)).0
          h in
      let (two, third) =
        (>>-accepted (status_equals_101 r >> connection_header_equals_upgrade r)
            (upgrade_header_equals_websocket r)).0
          three in
      let (first, second) =
        (>>-accepted (status_equals_101 r) (connection_header_equals_upgrade r)).0 two in
      record {
        switches = (==_iff r.code 101).0 ((require-accepted _ _).0 first);
        connection = elim ((either _ _).0 ((require-accepted _ _).0 second)) [
          | inl upper ↦ inl ((header_is _ _).0 upper)
          | inr lower ↦ inr ((header_is _ _).0 lower)
        ];
        upgrade = (header_is _ _).0 ((require-accepted _ _).0 third);
        accepts = (header_is _ _).0 ((require-accepted _ _).0 last);
      }

  IsUpgrade→accepted : IsUpgrade accept r → assert_websocket accept r ≡ accepted
  unfolding assert_websocket status_equals_101 connection_header_equals_upgrade
      upgrade_header_equals_websocket accept_header_is_valid
  IsUpgrade→accepted u =
      let valid : (header_equals (codes "Connection") (codes "Upgrade") r
            || header_equals (codes "Connection") (codes "upgrade") r)
          ≡ true =
        (either (header_equals (codes "Connection") (codes "Upgrade") r)
            (header_equals (codes "Connection") (codes "upgrade") r)).1
          (elim (u.connection) [
            | inl upper ↦ inl ((header_is (codes "Connection") (codes "Upgrade")).1 upper)
            | inr lower ↦ inr ((header_is (codes "Connection") (codes "upgrade")).1 lower)
          ]) in
      let first : status_equals_101 r ≡ accepted = rw (u.switches) refl in
      let second : connection_header_equals_upgrade r ≡ accepted = rw valid refl in
      let third : upgrade_header_equals_websocket r ≡ accepted =
        rw ((header_is (codes "Upgrade") (codes "websocket")).1 (u.upgrade)) refl in
      let last : accept_header_is_valid accept r ≡ accepted =
        rw ((header_is (codes "Sec-WebSocket-Accept") accept).1 (u.accepts)) refl in
      rw (first, second, third) last

-- A response passes `assert_websocket` exactly where its code is 101, its first Connection header
-- is Upgrade or upgrade, its first Upgrade header is websocket, and its first Sec-WebSocket-Accept
-- header is the expected text, where a header is the first of a name if none of those in front of
-- it in the list has that name.
pub assert_websocket_iff :
    (accept : Bytes) (r : Response) → (assert_websocket accept r ≡ accepted) ↔ IsUpgrade accept r
assert_websocket_iff accept r = (accepted→IsUpgrade accept r, IsUpgrade→accepted accept r)
