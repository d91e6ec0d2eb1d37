-- ===== src/Handshake.antt =====
-- The opening handshake: `make_accept_string` of librcom/src/WebSocket.cpp, the requests and
-- responses of librcom/src/ClientSideWebSocket.cpp and ServerSideWebSocket.cpp, and the two methods
-- `handshake`. SHA1 is a parameter, from a text to its digest of 20 bytes; so is the text of the
-- address that the client connects to.
pub mod Texts
pub mod ResponseRoundTrip
pub mod Duplex
pub mod Refusal
pub mod Agreement
use librcom.Base.{
  ℕ, Bool, true, false, Option, none, some, [], ◌∷◌, ◌++◌, if◌then◌else◌, take, Bytes, codes,
}
use librcom.Base64.{encode_base64}
use librcom.MemBuffer.{c_str, printf}
use librcom.Env.{Env}
use librcom.Http.Parser.{HttpParser, Parsed, Result, parse_request, parse_response}
use librcom.Http.Request.{Request, Check, passed, refused, get_header_value}
use librcom.Http
use librcom.Http.RequestParser.{request_methods}
use librcom.Http.Response.{Response, ResponseCheck, accepted, rejected}
use librcom.Http.ResponseParser.{response_methods}
use librcom.WebSocket.State.{
  WebSocket, server, client, Outcome, throws, out_of_fuel, runtime_error, M, pure, throw, ◌>>=◌,
  ◌>>◌, outside,
}
use librcom.WebSocket.Output.{socket_send}

abbrev pub websocket_guid : Bytes
websocket_guid = codes "258EAFA5-E914-47DA-95CA-C5AB0DC85B11"

unfoldable pub make_accept_string : (Bytes → Bytes) → Bytes → Bytes
make_accept_string sha1 key = encode_base64 (sha1 (key ++ websocket_guid))

unfoldable pub make_http_request : Bytes → Bytes → Bytes
make_http_request host key =
    printf
      (codes "GET / HTTP/1.1\r\nHost: "
        ++ (c_str host
            ++ (codes "\r\nConnection: Upgrade\r\nUpgrade: websocket\r\n"
                ++ (codes "Sec-WebSocket-Version: 13\r\nSec-WebSocket-Key: "
                    ++ (c_str key ++ codes "\r\n\r\n")))))
      []

unfoldable pub make_http_response : Bytes → Bytes
make_http_response accept =
    printf
      (codes "HTTP/1.1 101 Switching Protocols\r\nUpgrade: websocket\r\n"
        ++ (codes "Connection: Upgrade\r\nSec-WebSocket-Accept: "
            ++ (c_str accept ++ codes "\r\n\r\n")))
      []

-- A value that is left empty where the header is missing.
abbrev pub found_or_empty : Option Bytes → Bytes
found_or_empty none = []
found_or_empty (some value) = value

abbrev pub sixteen_zeros : Bytes
sixteen_zeros = 0 ∷ 0 ∷ 0 ∷ 0 ∷ 0 ∷ 0 ∷ 0 ∷ 0 ∷ 0 ∷ 0 ∷ 0 ∷ 0 ∷ 0 ∷ 0 ∷ 0 ∷ 0 ∷ []

module _ {S : Type 0} where
  -- An exception of the parser is a runtime_error; `none` is a parser out of rounds.
  abbrev pub parsed_outcome :
      {R : Type 0} → WebSocket S → Option (Parsed R × S) → Outcome (HttpParser R) × WebSocket S
  parsed_outcome w none = (out_of_fuel, w)
  parsed_outcome w (some (Result.ok p, s)) = (Outcome.ok p, record w { socket = s })
  parsed_outcome w (some (Result.err what p, s)) = (throws runtime_error, record w { socket = s })

  abbrev pub request_outcome : Check → M S (Unit {0})
  request_outcome passed = pure tt
  request_outcome (refused e) = throw runtime_error

  abbrev pub response_outcome : ResponseCheck → M S (Unit {0})
  response_outcome accepted = pure tt
  response_outcome (rejected e) = throw runtime_error

  module _ (env : Env S) (sha1 : Bytes → Bytes) where
    -- `ServerSideWebSocket::upgrade_connection`
    unfoldable pub upgrade_connection : Request → M S (Unit {0})
    upgrade_connection request = do
      let key : Bytes =
          found_or_empty (get_header_value (codes "Sec-WebSocket-Key") request.headers)
      sent ← socket_send env server (make_http_response (make_accept_string sha1 key))
      (if sent then pure tt else throw runtime_error)

    -- `ServerSideWebSocket::handshake`, with the rounds of the parser.
    unfoldable pub server_handshake : ℕ → HttpParser Request → M S (Unit {0})
    server_handshake fuel parser = do
      p ← λ w. parsed_outcome w (parse_request request_methods env.socket fuel parser w.socket)
      request_outcome (Http.Request.assert_websocket p.target)
      upgrade_connection p.target

    -- `make_key`: what getrandom leaves unset of the 16 bytes is zero.
    unfoldable pub make_key : M S Bytes
    make_key = do
      bytes ← outside (env.linux.getrandom 16)
      pure (encode_base64 (take 16 (bytes ++ sixteen_zeros)))

    unfoldable pub send_http_request : Bytes → Bytes → M S (Unit {0})
    send_http_request host key = do
      sent ← socket_send env client (make_http_request host key)
      (if sent then pure tt else throw runtime_error)

    -- `ClientSideWebSocket::handshake`
    unfoldable pub client_handshake : ℕ → HttpParser Response → Bytes → M S (Unit {0})
    client_handshake fuel parser host = do
      key ← make_key
      let accept : Bytes = make_accept_string sha1 key
      send_http_request host key
      p ← λ w. parsed_outcome w (parse_response response_methods env.socket fuel parser w.socket)
      response_outcome (Http.Response.assert_websocket accept p.target)
