-- ===== src/Handshake/Agreement.antt =====
-- Both sides of the opening handshake, over sockets that deliver what the other side sends.
use librcom.Base.{
  ℕ, ◌≡◌, refl, ap, ◌∙◌, arith, ◌++◌, Bytes, IsBytes, codes, equal, length, drop-length_append,
  zero, suc, some,
}
use librcom.Base64.{encode_base64}
use librcom.Env.{Env}
use librcom.Http
use librcom.Http.Parser.{Result, parse_request, parse_response}
use librcom.Http.Request.{Request, get_method, get_header_value}
use librcom.Http.Response.{accepted}
use librcom.Http.ResponseParser.{response_methods}
use librcom.Http.RequestParser.{request_methods}
use librcom.Http.RoundTrip.{new_parser, parse-request_text}
use librcom.Http.Stream.{after_reads, parse_loop_lem, pending-after_reads}
use librcom.Handshake.{
  make_accept_string, make_http_request, make_http_response, upgrade_connection, server_handshake,
  make_key, send_http_request, client_handshake,
}
use librcom.Handshake.ResponseRoundTrip.{new_response_parser, parse-response_text}
use librcom.Handshake.Texts.{
  IsPlain, request_headers, response_headers, make_http_request_lem, make_http_response_lem,
  request_headers-IsWritable, root-IsUri,
}
use librcom.WebSocket.State.{WebSocket, Outcome}
use librcom.WebSocket.Output.{socket_send}
use librcom.Handshake.Duplex.{
  IsDigest, IsDuplex, encoded-IsPlain, accept-IsPlain, nonce, client_key, client_answer,
  nonce-IsBytes, length-nonce, request-passed, response-accepted,
}

module _ {S : Type 0} (env : Env S) (duplex : IsDuplex env) where
  open duplex use {stream, ready, sink, sent-advance, sent-waited, pending-accept}
  open stream use {pending}
  open sink use {sent, accept}

  -- Reading leaves what has been written as it is.
  sent-after_reads :
      {R : Type 0} (methods : Http.Parser.Methods R) (n : ℕ) (s : S)
      → sent (after_reads methods env.socket stream ready n s) ≡ sent s
  unfolding after_reads
  sent-after_reads methods zero s = refl
  sent-after_reads methods (suc n) s =
      sent-after_reads methods n (stream.advance 1 (ready.waited s))
      ∙ rw (sent-advance, sent-waited) refl

  module _ (sha1 : Bytes → Bytes) (digest : IsDigest sha1) where
    upgrade_connection-sent :
        (request : Request) (key : Bytes) (w : WebSocket S)
        → get_header_value (codes "Sec-WebSocket-Key") request.headers ≡ some key
        → upgrade_connection env sha1 request w ≡ (
          Outcome.ok tt,
          record w { socket = accept (make_http_response (make_accept_string sha1 key)) w.socket },
        )
    unfolding upgrade_connection socket_send
    upgrade_connection-sent request key w e = rw e (rw (sink.send_true) refl)

    -- The server takes the request that a client makes of any host and of a key of sixteen bytes, to
    -- its last byte, and answers it.
    pub server_handshake_lem :
        (host input rest : Bytes) (w : WebSocket S)
        → IsPlain host
        → IsBytes input
        → length input ≡ 16
        → pending w.socket ≡ make_http_request host (encode_base64 input) ++ rest
        → (s : S) × (server_handshake env sha1
              (length (make_http_request host (encode_base64 input)))
              new_parser
              w
            ≡ (Outcome.ok tt, record w { socket = s }))
          × (sent s
              ≡ sent w.socket ++ make_http_response (make_accept_string sha1 (encode_base64 input)))
          × (pending s ≡ rest)
    unfolding server_handshake parse_request get_header_value equal
    server_handshake_lem host input rest w h bytes n e =
        let key = encode_base64 input in
        let headers = request_headers host key in
        let key_plain = encoded-IsPlain input bytes (omega arith) (omega arith) in
        let text = make_http_request host key in
        let same = make_http_request_lem host key h key_plain in
        let (q, run, in_body, target) =
          parse-request_text (codes "/") headers root-IsUri
            (request_headers-IsWritable host key h key_plain) in
        let s1 = after_reads request_methods env.socket stream ready (length text) w.socket in
        let response = make_http_response (make_accept_string sha1 key) in
        let read =
          parse_loop_lem request_methods env.socket stream ready text rest new_parser q w.socket
            (rw same (omega arith))
            (ap (λ t. Http.Parser.handle_chars request_methods t new_parser) same ∙ run) in_body
            e in
        (
          accept response s1,
          rw (read, target, request-passed host input bytes n)
              (upgrade_connection-sent
                (record { method = get_method; uri = codes "/"; headers = headers }) key
                (record w { socket = s1 }) refl),
          sink.sent-accept response s1
              ∙ ap (λ t. t ++ response) (sent-after_reads request_methods (length text) w.socket),
          pending-accept response s1
              ∙ pending-after_reads request_methods env.socket stream ready (length text) w.socket
              ∙ rw e (drop-length_append text rest),
        )

    -- The client sends a request with its key, and takes the answer that a server makes to this key.
    pub client_handshake_lem :
        (host rest : Bytes) (w : WebSocket S)
        → pending w.socket ≡ client_answer env sha1 w.socket ++ rest
        → (s : S) × (client_handshake env sha1
              (length (client_answer env sha1 w.socket))
              new_response_parser
              host
              w
            ≡ (Outcome.ok tt, record w { socket = s }))
          × (sent s ≡ sent w.socket ++ make_http_request host (client_key env w.socket))
          × (pending s ≡ rest)
    unfolding client_handshake make_key send_http_request socket_send parse_response
    client_handshake_lem host rest w e =
        let (bytes, s0) = env.linux.getrandom 16 w.socket in
        let key = client_key env w.socket in
        let answer = make_accept_string sha1 key in
        let answer_plain = accept-IsPlain sha1 key digest in
        let same = make_http_response_lem answer answer_plain in
        let text = make_http_response answer in
        let request = make_http_request host key in
        let s1 = accept request (env.linux.getrandom 16 w.socket).1 in
        let before : pending s1 ≡ text ++ rest =
          pending-accept request (env.linux.getrandom 16 w.socket).1
          ∙ duplex.pending-getrandom 16 w.socket
          ∙ e in
        let (q, run, in_body, target) = parse-response_text answer answer_plain in
        let read =
          parse_loop_lem response_methods env.socket stream ready text rest new_response_parser q s1
            (rw same (omega arith))
            (ap (λ t. Http.Parser.handle_chars response_methods t new_response_parser) same ∙ run)
            in_body before in
        let checked : Http.Response.assert_websocket answer
              (record { code = 101; headers = response_headers answer })
            ≡ accepted =
          response-accepted answer in
        (
          after_reads response_methods env.socket stream ready (length text) s1,
          rw (sink.send_true) (rw (read, target, checked) refl),
          sent-after_reads response_methods (length text) s1
              ∙ sink.sent-accept request (env.linux.getrandom 16 w.socket).1
              ∙ ap (λ t. t ++ request) (sink.sent-getrandom 16 w.socket),
          pending-after_reads response_methods env.socket stream ready (length text) s1
              ∙ rw before (drop-length_append text rest),
        )

-- Both sides of the opening handshake come to an end with a websocket, over two sockets that
-- deliver in order, whose writes succeed and whose two directions are independent, for any digest
-- of 20 bytes and any host of 1 to 1024 bytes without a zero, a carriage return or a space in
-- front: where the server has to read the request that the client writes for the key that it
-- makes, and the client has to read the answer to that key, both end without an exception, each
-- has written exactly the text that the other has read, and neither has taken a byte of what
-- stands behind it.
pub handshakes_agree :
    {C D : Type 0} (client_env : Env C) (server_env : Env D)
    → (at_client : IsDuplex client_env) → (at_server : IsDuplex server_env) → (sha1 : Bytes → Bytes)
    → (digest : IsDigest sha1)
    → (host client_rest server_rest : Bytes) (wc : WebSocket C) (ws : WebSocket D) → IsPlain host
    → at_server.stream.pending ws.socket
      ≡ make_http_request host (client_key client_env wc.socket) ++ server_rest
    → at_client.stream.pending wc.socket ≡ client_answer client_env sha1 wc.socket ++ client_rest
    → (c : C) × (d : D) × (client_handshake client_env sha1
          (length (client_answer client_env sha1 wc.socket))
          new_response_parser
          host
          wc
        ≡ (Outcome.ok tt, record wc { socket = c }))
      × (server_handshake server_env sha1
            (length (make_http_request host (client_key client_env wc.socket)))
            new_parser
            ws
          ≡ (Outcome.ok tt, record ws { socket = d }))
      × (at_client.sink.sent c
          ≡ at_client.sink.sent wc.socket
            ++ make_http_request host (client_key client_env wc.socket))
      × (at_server.sink.sent d
          ≡ at_server.sink.sent ws.socket ++ client_answer client_env sha1 wc.socket)
      × (at_client.stream.pending c ≡ client_rest)
      × (at_server.stream.pending d ≡ server_rest)
handshakes_agree client_env server_env at_client at_server sha1 digest host client_rest server_rest
      wc ws h asked answered =
    let bytes = (client_env.linux.getrandom 16 wc.socket).0 in
    let (c, c_ends, c_sent, c_left) =
      client_handshake_lem client_env at_client sha1 digest host client_rest wc answered in
    let (d, d_ends, d_sent, d_left) =
      server_handshake_lem server_env at_server sha1 digest host (nonce bytes) server_rest ws h
        (nonce-IsBytes bytes (at_client.getrandom_bytes 16 wc.socket)) (length-nonce bytes) asked in
    (c, d, c_ends, d_ends, c_sent, d_sent, c_left, d_left)
