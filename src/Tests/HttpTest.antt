-- ===== src/Tests/HttpTest.antt =====
-- The theorems on librcom/src/HttpParser.cpp and Registry.cpp at concrete inputs.
use librcom.Base.{
  ℕ, ◌≡◌, ◌≢◌, ◌↔◌, refl, arith, true, none, some, List, [], ◌∷◌, ◌++◌, Bytes, length, codes, All,
  equal,
}
use librcom.Http.Characters.{is_token_character, is_separator, strchr}
use librcom.Http.Parser.{HttpParser, ok, parse_request}
use librcom.Http.Request.{Request, Headers, get_method}
use librcom.Http.RequestParser.{request_methods}
use librcom.Http.Lines.{IsWritable}
use librcom.Http.RoundTrip.{IsUri, request_text, new_parser}
use librcom.Http.Response.{Response, accepted, assert_websocket}
use librcom.Http.Upgrade.{IsUpgrade, assert_websocket_iff}
use librcom.Http.Stream.{parse_request-request_text}
use librcom.Http.WellFormed.{IsAddressed, parse_request-IsAddressed}
use librcom.Registry.{RegistryEntry, get, set, insert, erase, erase_at, find, remove}
use librcom.Registry.Table.{IsFunctional, get-set, get-remove}
use librcom.Tests.World.{World, quiet, test_socket, test_stream, test_ready}

abbrev root : Bytes
root = codes "/"

abbrev root_headers : Headers
root_headers = (codes "Host", codes "a b") ∷ []

abbrev root_request : Bytes
root_request = request_text root root_headers

abbrev root_world : World
root_world = record quiet { unread = root_request ++ codes "rest" }

root-IsUri : IsUri root
root-IsUri = record {
  uri_nonempty = omega arith;
  uri_fits = omega arith;
  uri_no_space = (omega arith, tt);
}

root_headers-IsWritable : All IsWritable root_headers
unfolding is_token_character is_separator strchr
root_headers-IsWritable = (
  (
    record {
      name_nonempty = omega arith;
      name_fits = omega arith;
      name_tokens = (refl, (refl, (refl, (refl, tt))));
    },
    record {
      value_nonempty = omega arith;
      value_fits = omega arith;
      value_no_cr = (omega arith, (omega arith, (omega arith, tt)));
    },
    omega arith,
  ),
  tt,
)

parse_request-request_text_example :
    (q : HttpParser Request) × (s' : World) × (parse_request request_methods test_socket
        (length root_request)
        new_parser
        root_world
      ≡ some (ok q, s'))
    × (q.target ≡ record { method = get_method; uri = root; headers = root_headers })
    × (s'.unread ≡ codes "rest")
parse_request-request_text_example =
    parse_request-request_text test_socket test_stream test_ready root root_headers (codes "rest")
      root_world root-IsUri root_headers-IsWritable refl

-- The parser and the world after it.
root_parsed :
    (q : HttpParser Request) × (s' : World) × (parse_request request_methods test_socket
        (length root_request)
        new_parser
        root_world
      ≡ some (ok q, s'))
root_parsed =
    let (q, s', parsed, others, rest) =
      parse_request-request_text test_socket test_stream test_ready root root_headers (codes "rest")
        root_world root-IsUri root_headers-IsWritable refl in
    (q, s', parsed)

parse_request-IsAddressed_example : IsAddressed root_parsed.0.target
parse_request-IsAddressed_example =
    parse_request-IsAddressed test_socket (length root_request) new_parser root_parsed.0 root_world
      root_parsed.1 tt root_parsed.2

abbrev two_topics : List (RegistryEntry ℕ)
two_topics =
    record { topic = codes "camera"; address = 8001 }
    ∷ record { topic = codes "arm"; address = 8002 }
    ∷ []

abbrev moved_camera : List (RegistryEntry ℕ)
moved_camera =
    record { topic = codes "arm"; address = 8002 }
    ∷ record { topic = codes "camera"; address = 9000 }
    ∷ []

two_topics-IsFunctional : IsFunctional two_topics
unfolding equal
two_topics-IsFunctional = ((refl, tt), (tt, tt))

camera_moved : set (λ a. true) (codes "camera") 9000 two_topics ≡ some moved_camera
unfolding set insert erase find equal erase_at
camera_moved = refl

arm-ne-camera : codes "arm" ≢ codes "camera"
arm-ne-camera e = cc e

get-set_example :
    (get (codes "camera") moved_camera ≡ some 9000)
    × (get (codes "arm") moved_camera ≡ get (codes "arm") two_topics)
    × IsFunctional moved_camera
get-set_example =
    get-set (λ a. true) (codes "camera") (codes "arm") 9000 two_topics moved_camera arm-ne-camera
      two_topics-IsFunctional camera_moved

get-remove_example :
    (get (codes "camera") (remove (codes "camera") two_topics) ≡ none)
    × (get (codes "arm") (remove (codes "camera") two_topics) ≡ get (codes "arm") two_topics)
    × IsFunctional (remove (codes "camera") two_topics)
get-remove_example =
    get-remove (codes "camera") (codes "arm") two_topics arm-ne-camera two_topics-IsFunctional

-- The answer to the key of section 1.3 of RFC 6455.
abbrev sample_accept : Bytes
sample_accept = codes "s3pPLMBiTxaQ9kYGzzhZRbK+xOo="

abbrev sample_response : Response
sample_response = record {
  code = 101;
  headers =
      (codes "Upgrade", codes "websocket")
      ∷ (codes "Connection", codes "Upgrade")
      ∷ (codes "Sec-WebSocket-Accept", sample_accept)
      ∷ [];
}

assert_websocket_iff_example :
    (assert_websocket sample_accept sample_response ≡ accepted)
    ↔ IsUpgrade sample_accept sample_response
assert_websocket_iff_example = assert_websocket_iff sample_accept sample_response
