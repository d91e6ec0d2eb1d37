-- ===== src/Handshake/Refusal.antt =====
-- When the server takes a connection for a websocket.
use librcom.Base.{
  ℕ, ◌≡◌, ◌∙◌, refl, sym, ap, if◌then◌else◌, true, false, Bool, Option, none, some, ◌++◌, Bytes,
  codes,
}
use librcom.Base64.{encode_base64}
use librcom.Env.{Env}
use librcom.Handshake.Duplex.{IsDigest, accept-IsPlain}
use librcom.Handshake.Texts.{response_text, make_http_response_lem}
use librcom.Http.Parser.{HttpParser, Parsed, Result, parse_request}
use librcom.Http.Request.{Request, Check, passed, refused, assert_websocket}
use librcom.Http.RequestParser.{request_methods}
use librcom.Http.UpgradeRequest.{IsUpgradeRequest, assert_websocket-IsUpgradeRequest}
use librcom.Handshake.{
  make_accept_string, make_http_response, upgrade_connection, server_handshake, parsed_outcome,
  request_outcome,
}
use librcom.WebSocket.State.{WebSocket, server, Outcome, pure, throw, runtime_error, ◌>>=◌, next}
use librcom.WebSocket.Output.{socket_send, close_connection, socket_close}

-- What is known of a server's websocket when the handshake has ended well.
pub record Upgraded {S : Type 0} (env : Env S) (sha1 : Bytes → Bytes) (fuel : ℕ)
    (parser : HttpParser Request) (before after : S) : Type 0 where
  pub parsed : HttpParser Request
  pub middle : S
  pub key : Bytes
  pub request_parsed :
      parse_request request_methods env.socket fuel parser before ≡ some (Result.ok parsed, middle)
  pub request_passed : IsUpgradeRequest parsed.target key
  pub answer_sent :
      env.socket.send
        (response_text (encode_base64 (sha1 (key ++ codes "258EAFA5-E914-47DA-95CA-C5AB0DC85B11"))))
        middle
      ≡ (true, after)

module _ {S : Type 0} (env : Env S) (sha1 : Bytes → Bytes) (digest : IsDigest sha1) (fuel : ℕ)
    (parser : HttpParser Request) (w w' : WebSocket S) where
  -- A response that could not be sent is an exception.
  after_send :
      (sent : Bool) (s : S)
      → next
          ((if sent then pure true else (close_connection env server >>= λ _. pure false))
            (record w { socket = s }))
          (λ done. if done then pure tt else throw runtime_error)
        ≡ (Outcome.ok tt, w')
      → (sent ≡ true) × (s ≡ w'.socket)
  unfolding close_connection socket_close
  after_send true s e = (refl, ap (λ r. r.1.socket) e)
  after_send false s e = absurd (cc e)

  -- Behind the parser.
  after_parse :
      (r : Option (Parsed Request × S))
      → parse_request request_methods env.socket fuel parser w.socket ≡ r
      → next (parsed_outcome w r) (λ p.
        request_outcome (assert_websocket p.target) >>= λ _. upgrade_connection env sha1 p.target)
        ≡ (Outcome.ok tt, w')
      → Upgraded env sha1 fuel parser w.socket w'.socket
  unfolding upgrade_connection socket_send make_accept_string
  after_parse none run e = absurd (cc e)
  after_parse (some (Result.err what p, s)) run e = absurd (cc e)
  after_parse (some (Result.ok p, s)) run e = checked (assert_websocket p.target) refl e
    where
      checked :
          (c : Check)
          → assert_websocket p.target ≡ c
          → next
              (request_outcome c (record w { socket = s }))
              (λ _. upgrade_connection env sha1 p.target)
            ≡ (Outcome.ok tt, w')
          → Upgraded env sha1 fuel parser w.socket w'.socket
      checked (refused what) found e = absurd (cc e)
      checked passed found e =
          let request = p.target in
          let (key, has_key, upgrades) = assert_websocket-IsUpgradeRequest request found in
          let accept = make_accept_string sha1 key in
          let usual : make_http_response accept ≡ response_text accept =
            make_http_response_lem accept (accept-IsPlain sha1 key digest) in
          let response = make_http_response (make_accept_string sha1 key) in
          let (sent, last) =
            after_send (env.socket.send response s).0 (env.socket.send response s).1
              (rw (has_key, upgrade_connection) at e) in
          record {
            parsed = p;
            middle = s;
            key = key;
            request_parsed = run;
            request_passed = upgrades;
            answer_sent =
                ap (λ t. env.socket.send t s) (sym usual)
                ∙ ap (λ b. (b, (env.socket.send response s).1)) sent
                ∙ ap (λ t. (true, t)) last;
          }

-- Where the handshake of a server ends without an exception, whatever the socket does and for a
-- SHA1 whose digests have 20 bytes, the parser has accepted a request, and that request is one for
-- a websocket: a GET whose first Sec-WebSocket-Key header is 22 letters of base64 and two equals
-- signs, whose first Sec-WebSocket-Version header is 13, whose first Connection header has Upgrade
-- or upgrade in it, and whose first Upgrade header is websocket; and what has been sent with
-- success is the text of a switch of protocols that carries the base64 of the digest of this key
-- and the GUID of RFC 6455.
pub server_handshake-Upgraded :
    {S : Type 0} (env : Env S) (sha1 : Bytes → Bytes) (digest : IsDigest sha1) (fuel : ℕ)
    (parser : HttpParser Request) (w w' : WebSocket S)
    → server_handshake env sha1 fuel parser w ≡ (Outcome.ok tt, w')
    → Upgraded env sha1 fuel parser w.socket w'.socket
unfolding server_handshake
server_handshake-Upgraded env sha1 digest fuel parser w w' e =
    after_parse env sha1 digest fuel parser w w'
      (parse_request request_methods env.socket fuel parser w.socket) refl e
