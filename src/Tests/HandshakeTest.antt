-- ===== src/Tests/HandshakeTest.antt =====
-- The theorems on the opening handshake and on `encode_base64` at concrete inputs.
use librcom.Base.{ℕ, ◌<◌, All, ◌≡◌, refl, arith, ◌++◌, Bytes, codes, length}
use librcom.Base64.{encode_base64}
use librcom.Base64.Decode.{decode_base64}
use librcom.Base64.RoundTrip.{decode-encode_base64}
use librcom.Handshake.{
  make_accept_string, make_http_request, make_http_response, server_handshake, client_handshake,
}
use librcom.Handshake.Agreement.{handshakes_agree}
use librcom.Handshake.Duplex.{IsDuplex, IsDigest, client_key}
use librcom.Handshake.Refusal.{Upgraded, server_handshake-Upgraded}
use librcom.Handshake.ResponseRoundTrip.{new_response_parser}
use librcom.Handshake.Texts.{IsPlain}
use librcom.Http.RoundTrip.{new_parser}
use librcom.WebSocket.State.{WebSocket, Outcome}
use librcom.Tests.World.{World, quiet, test_env, test_stream, test_ready, test_sink, test_websocket}

decode-encode_base64_example :
    decode_base64 (encode_base64 (codes "light work")) ≡ codes "light work"
decode-encode_base64_example = decode-encode_base64 (codes "light work") (ground arith)

test_random_bytes : (n : ℕ) (s : World) → All (λ b. b < 256) (test_env.linux.getrandom n s).0
test_random_bytes n s = ground arith

abbrev test_duplex : IsDuplex test_env
test_duplex = record {
  stream = test_stream;
  ready = test_ready;
  sink = test_sink;
  sent-advance = λ n s. refl;
  sent-waited = λ s. refl;
  pending-accept = λ bytes s. refl;
  pending-getrandom = λ n s. refl;
  getrandom_bytes = test_random_bytes;
}

-- A digest that is the same for every text.
abbrev test_sha1 : Bytes → Bytes
test_sha1 text = codes "twenty bytes, digest"

test_digest_bytes : (text : Bytes) → All (λ b. b < 256) (test_sha1 text)
test_digest_bytes text = ground arith

abbrev test_digest : IsDigest test_sha1
test_digest = record { digest_bytes = test_digest_bytes; digest_length = λ text. refl }

abbrev test_host : Bytes
test_host = codes "10.0.0.1:8080"

test_host-IsPlain : IsPlain test_host
test_host-IsPlain = record {
  plain_value = record {
    value_nonempty = omega arith;
    value_fits = omega arith;
    value_no_cr = ground arith;
  };
  plain_start = ground arith;
  plain_no_zero = ground arith;
}

abbrev test_key : Bytes
test_key = client_key test_env quiet

abbrev client_websocket : WebSocket World
client_websocket = test_websocket (record quiet {
  unread = make_http_response (make_accept_string test_sha1 test_key) ++ codes "rest";
})

abbrev server_websocket : WebSocket World
server_websocket =
    test_websocket (record quiet { unread = make_http_request test_host test_key ++ codes "frame" })

abbrev test_answer : Bytes
test_answer = make_http_response (make_accept_string test_sha1 test_key)

handshakes_agree_example :
    (c : World) × (d : World) × (client_handshake test_env test_sha1
        (length test_answer)
        new_response_parser
        test_host
        client_websocket
      ≡ (Outcome.ok tt, record client_websocket { socket = c }))
    × (server_handshake test_env test_sha1
          (length (make_http_request test_host test_key))
          new_parser
          server_websocket
        ≡ (Outcome.ok tt, record server_websocket { socket = d }))
    × (c.written ≡ make_http_request test_host test_key)
    × (d.written ≡ test_answer)
    × (c.unread ≡ codes "rest")
    × (d.unread ≡ codes "frame")
handshakes_agree_example =
    handshakes_agree test_env test_env test_duplex test_duplex test_sha1 test_digest test_host
      (codes "rest") (codes "frame") client_websocket server_websocket test_host-IsPlain refl refl

-- The server's part of it, with the world that it ends in.
upgraded_world :
    (d : World) × (server_handshake test_env test_sha1
        (length (make_http_request test_host test_key))
        new_parser
        server_websocket
      ≡ (Outcome.ok tt, record server_websocket { socket = d }))
upgraded_world =
    let (c, d, client_ends, server_ends, sent_c, sent_d, rest_c, rest_d) =
      handshakes_agree test_env test_env test_duplex test_duplex test_sha1 test_digest test_host
        (codes "rest") (codes "frame") client_websocket server_websocket test_host-IsPlain refl
        refl in
    (d, server_ends)

server_handshake-Upgraded_example :
    Upgraded test_env test_sha1
      (length (make_http_request test_host test_key))
      new_parser
      server_websocket.socket
      upgraded_world.0
server_handshake-Upgraded_example =
    server_handshake-Upgraded test_env test_sha1 test_digest
      (length (make_http_request test_host test_key)) new_parser server_websocket
      (record server_websocket { socket = upgraded_world.0 }) upgraded_world.1
