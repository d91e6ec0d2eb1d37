-- ===== src/Handshake/Texts.antt =====
-- The texts of the opening handshake are requests and responses of the usual form.
use librcom.Base.{
  ℕ, ◌≤◌, ◌<◌, ◌≡◌, ◌≢◌, refl, arith, Bool, true, ◌&&◌, ltb, [], ◌∷◌, ◌++◌, length, All, Bytes,
  codes,
}
use librcom.Http.Characters.{is_token_character, is_separator, strchr}
use librcom.Http.Request.{Headers}
use librcom.Http.Lines.{IsWritable, NoLeadingSpace, header_lines}
use librcom.Http.RoundTrip.{IsUri, request_text}
use librcom.Http.WellFormed.{IsName, IsValue}
use librcom.MemBuffer.{c_str, printf, c_str_append, c_str_id}
use librcom.Handshake.{make_http_request, make_http_response}

-- A text that can stand in a header and in a string of C: 1 to 1024 bytes, none of them zero or a
-- carriage return, the first no space.
pub record IsPlain (text : Bytes) : Type 0 where
  pub plain_value : IsValue text
  pub plain_start : NoLeadingSpace text
  pub plain_no_zero : All (λ c. c ≢ 0) text

-- The headers of the two texts.
abbrev pub request_headers : Bytes → Bytes → Headers
request_headers host key =
    (codes "Host", host)
    ∷ (codes "Connection", codes "Upgrade")
    ∷ (codes "Upgrade", codes "websocket")
    ∷ (codes "Sec-WebSocket-Version", codes "13")
    ∷ (codes "Sec-WebSocket-Key", key)
    ∷ []

abbrev pub response_headers : Bytes → Headers
response_headers accept =
    (codes "Upgrade", codes "websocket")
    ∷ (codes "Connection", codes "Upgrade")
    ∷ (codes "Sec-WebSocket-Accept", accept)
    ∷ []

abbrev pub response_text : Bytes → Bytes
response_text accept =
    codes "HTTP/1.1 101 Switching Protocols\r\n"
    ++ header_lines (response_headers accept) (codes "\r\n")

pub make_http_request_lem :
    (host key : Bytes)
    → IsPlain host
    → IsPlain key
    → make_http_request host key ≡ request_text (codes "/") (request_headers host key)
unfolding make_http_request printf c_str
make_http_request_lem host key h k =
    let host_stays = c_str_id host h.plain_no_zero in
    let key_stays = c_str_id key k.plain_no_zero in
    let long = λ (rest : Bytes). c_str_append host rest h.plain_no_zero in
    let short = λ (rest : Bytes). c_str_append key rest k.plain_no_zero in
    rw (host_stays, key_stays) (rw (long, short) refl)

pub make_http_response_lem :
    (accept : Bytes) → IsPlain accept → make_http_response accept ≡ response_text accept
unfolding make_http_response printf c_str
make_http_response_lem accept h =
    let stays = c_str_id accept h.plain_no_zero in
    let long = λ (rest : Bytes). c_str_append accept rest h.plain_no_zero in rw stays (rw long refl)

-- The test of a fixed name, by evaluation.
abbrev is_name : Bytes → Bool
is_name [] = true
is_name (c ∷ cs) = is_token_character c && is_name cs

is_name→tokens : (name : Bytes) → is_name name ≡ true → All (λ c. is_token_character c ≡ true) name
is_name→tokens [] e = tt
is_name→tokens (c ∷ cs) e = let rest = is_name→tokens cs in ground arith

fixed-IsName :
    (name : Bytes) → 0 < length name → length name ≤ 128 → is_name name ≡ true → IsName name
fixed-IsName name nonempty fits tokens = record {
  name_nonempty = nonempty;
  name_fits = fits;
  name_tokens = is_name→tokens name tokens;
}

abbrev is_printable : Bytes → Bool
is_printable [] = true
is_printable (c ∷ cs) = ltb b' ' c && is_printable cs

-- A text of letters above the space is plain.
pub printable→IsPlain :
    (text : Bytes) → 0 < length text → length text ≤ 1024 → All (λ c. b' ' < c) text → IsPlain text
printable→IsPlain text nonempty fits above = record {
  plain_value = record {
    value_nonempty = nonempty;
    value_fits = fits;
    value_no_cr = each (λ c. c ≢ b'\r') (λ c h e. omega arith) text above;
  };
  plain_start = start text above;
  plain_no_zero = each (λ c. c ≢ 0) (λ c h e. omega arith) text above;
}
  where
    each :
        (P : ℕ → Type 0)
        → ((c : ℕ) → b' ' < c → P c)
        → (cs : Bytes) → All (λ c. b' ' < c) cs
        → All P cs
    each P f [] h = tt
    each P f (c ∷ cs) h = (f c h.0, each P f cs h.1)

    start : (cs : Bytes) → All (λ c. b' ' < c) cs → NoLeadingSpace cs
    start [] h = tt
    start (c ∷ cs) h = λ e. (let above_space = h.0 in omega arith)

fixed-IsPlain :
    (text : Bytes) → 0 < length text → length text ≤ 1024 → is_printable text ≡ true → IsPlain text
fixed-IsPlain text nonempty fits e = printable→IsPlain text nonempty fits (above text e)
  where
    above : (cs : Bytes) → is_printable cs ≡ true → All (λ c. b' ' < c) cs
    above [] e = tt
    above (c ∷ cs) e = let rest = above cs in ground arith

writable : (name value : Bytes) → IsName name → IsPlain value → IsWritable (name, value)
writable name value n v = (n, v.plain_value, v.plain_start)

upgrade_websocket : IsWritable (codes "Upgrade", codes "websocket")
unfolding is_token_character is_separator strchr
upgrade_websocket =
    writable (codes "Upgrade") (codes "websocket")
      (fixed-IsName (codes "Upgrade") (omega arith) (omega arith) refl)
      (fixed-IsPlain (codes "websocket") (omega arith) (omega arith) refl)

connection_upgrade : IsWritable (codes "Connection", codes "Upgrade")
unfolding is_token_character is_separator strchr
connection_upgrade =
    writable (codes "Connection") (codes "Upgrade")
      (fixed-IsName (codes "Connection") (omega arith) (omega arith) refl)
      (fixed-IsPlain (codes "Upgrade") (omega arith) (omega arith) refl)

pub request_headers-IsWritable :
    (host key : Bytes) → IsPlain host → IsPlain key → All IsWritable (request_headers host key)
unfolding is_token_character is_separator strchr
request_headers-IsWritable host key h k = (
  writable (codes "Host") host (fixed-IsName (codes "Host") (omega arith) (omega arith) refl) h,
  (
    connection_upgrade,
    (
      upgrade_websocket,
      (
        writable (codes "Sec-WebSocket-Version") (codes "13")
            (fixed-IsName (codes "Sec-WebSocket-Version") (omega arith) (omega arith) refl)
            (fixed-IsPlain (codes "13") (omega arith) (omega arith) refl),
        (
          writable (codes "Sec-WebSocket-Key") key
              (fixed-IsName (codes "Sec-WebSocket-Key") (omega arith) (omega arith) refl) k,
          tt,
        ),
      ),
    ),
  ),
)

pub response_headers-IsWritable :
    (accept : Bytes) → IsPlain accept → All IsWritable (response_headers accept)
unfolding is_token_character is_separator strchr
response_headers-IsWritable accept h = (
  upgrade_websocket,
  (
    connection_upgrade,
    (
      writable (codes "Sec-WebSocket-Accept") accept
          (fixed-IsName (codes "Sec-WebSocket-Accept") (omega arith) (omega arith) refl) h,
      tt,
    ),
  ),
)

pub root-IsUri : IsUri (codes "/")
root-IsUri = record {
  uri_nonempty = omega arith;
  uri_fits = omega arith;
  uri_no_space = (omega arith, tt);
}
