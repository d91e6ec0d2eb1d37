-- ===== src/Handshake/Duplex.antt =====
-- The keys and answers of the opening handshake, and what it is done over: a digest, and a socket
-- whose two directions are independent.
use librcom.Base.{
  ℕ, ◌≤◌, ◌<◌, ◌≡◌, refl, ◌∙◌, arith, ◌++◌, All-append, All-take, Bytes, IsBytes, codes, equal,
  length, length-take, length-append, take, inl,
}
use librcom.Base64.{encode_base64}
use librcom.Base64.Key.{
  encode_base64-printable, length-encode_base64, is_valid_websocket_key-encode_base64,
}
use librcom.Env.{Env, IsStream, IsSink}
use librcom.Http
use librcom.Http
use librcom.Http.Upgrade.{assert_websocket_iff}
use librcom.Http.Response.{accepted}
use librcom.Http.FirstHeader.{get_header_value_iff}
use librcom.Http.Request.{
  get_method, get_header_value, passed, assert_websocket, http_method_is_get,
  has_valid_websocket_key, has_valid_websocket_version, connection_header_is_upgrade,
  upgrade_header_is_websocket, contains, starts_with,
}
use librcom.Http.Stream.{IsReady}
use librcom.Handshake.{make_accept_string, make_http_response, sixteen_zeros, websocket_guid}
use librcom.Handshake.Texts.{IsPlain, printable→IsPlain, request_headers, response_headers}

-- What SHA1 gives: twenty bytes.
pub record IsDigest (sha1 : Bytes → Bytes) : Type 0 where
  pub digest_bytes : (text : Bytes) → IsBytes (sha1 text)
  pub digest_length : (text : Bytes) → length (sha1 text) ≡ 20

-- A socket whose two directions do not depend on each other.
pub record IsDuplex {S : Type 0} (env : Env S) : Type 0 where
  pub stream : IsStream env.socket
  pub ready : IsReady env.socket stream
  pub sink : IsSink env
  pub sent-advance : (n : ℕ) (s : S) → sink.sent (stream.advance n s) ≡ sink.sent s
  pub sent-waited : (s : S) → sink.sent (ready.waited s) ≡ sink.sent s
  pub pending-accept :
      (bytes : Bytes) (s : S) → stream.pending (sink.accept bytes s) ≡ stream.pending s
  pub pending-getrandom :
      (n : ℕ) (s : S) → stream.pending (env.linux.getrandom n s).1 ≡ stream.pending s
  pub getrandom_bytes : (n : ℕ) (s : S) → IsBytes (env.linux.getrandom n s).0

pub encoded-IsPlain :
    (input : Bytes)
    → IsBytes input
    → 0 < length input
    → length input ≤ 700
    → IsPlain (encode_base64 input)
encoded-IsPlain input bytes nonempty fits =
    let long = length-encode_base64 input in
    printable→IsPlain (encode_base64 input) (omega arith) (omega arith)
      (encode_base64-printable input bytes)

pub accept-IsPlain :
    (sha1 : Bytes → Bytes) (key : Bytes) → IsDigest sha1 → IsPlain (make_accept_string sha1 key)
unfolding make_accept_string
accept-IsPlain sha1 key d =
    let n = d.digest_length (key ++ websocket_guid) in
    encoded-IsPlain (sha1 (key ++ websocket_guid)) (d.digest_bytes (key ++ websocket_guid))
      (omega arith) (omega arith)

-- The nonce that make_key encodes.
abbrev pub nonce : Bytes → Bytes
nonce bytes = take 16 (bytes ++ sixteen_zeros)

-- The key that the client makes in this state of the world, and the answer that a server gives to it.
abbrev pub client_key : {S : Type 0} → Env S → S → Bytes
client_key env s = encode_base64 (nonce (env.linux.getrandom 16 s).0)

abbrev pub client_answer : {S : Type 0} → Env S → (Bytes → Bytes) → S → Bytes
client_answer env sha1 s = make_http_response (make_accept_string sha1 (client_key env s))

pub nonce-IsBytes : (bytes : Bytes) → IsBytes bytes → IsBytes (nonce bytes)
nonce-IsBytes bytes h =
    All-take (λ b. b < 256) 16 (bytes ++ sixteen_zeros)
      (All-append (λ b. b < 256) bytes sixteen_zeros h (ground arith))

pub length-nonce : (bytes : Bytes) → length (nonce bytes) ≡ 16
length-nonce bytes =
    length-take 16 (bytes ++ sixteen_zeros) ∙ omega (arith, length-append bytes sixteen_zeros)

-- The request of the client, with a key of sixteen bytes, is one for a websocket.
pub request-passed :
    (host input : Bytes)
    → IsBytes input
    → length input ≡ 16
    → assert_websocket (record {
      method = get_method;
      uri = codes "/";
      headers = request_headers host (encode_base64 input);
    })
      ≡ passed
unfolding assert_websocket http_method_is_get has_valid_websocket_key has_valid_websocket_version
    connection_header_is_upgrade upgrade_header_is_websocket get_header_value equal contains
    starts_with
request-passed host input bytes n = rw (is_valid_websocket_key-encode_base64 input bytes n) refl

-- The answer of the server is a switch to a websocket.
pub response-accepted :
    (answer : Bytes)
    → Http.Response.assert_websocket answer
        (record { code = 101; headers = response_headers answer })
      ≡ accepted
unfolding get_header_value equal
response-accepted answer =
    let headers = response_headers answer in
    let first = λ (name value : Bytes). (get_header_value_iff name value headers).0 in
    (assert_websocket_iff answer (record { code = 101; headers = headers })).1 (record {
      switches = refl;
      connection = inl (first (codes "Connection") (codes "Upgrade") refl);
      upgrade = first (codes "Upgrade") (codes "websocket") refl;
      accepts = first (codes "Sec-WebSocket-Accept") answer refl;
    })
