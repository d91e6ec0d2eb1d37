-- ===== src/RegistryProxy/Wire.antt =====
-- The server of RegistryServer.cpp at the other end of the websocket of a proxy.
use librcom.Base.{true, Option, none, some, List, [], ◌∷◌, ◌++◌, ◌≡◌, refl, Bytes, codes, equal}
use librcom.Action.{Result, ok, caught}
use librcom.Address.{Inet, Address}
use librcom.Address
use librcom.Json.{Json, IsJson}
use librcom.Json.Plain.{
  ReadsObjects, IsPlainText, object_text, object_of, fixed-IsPlainText, is_plain_char,
}
use librcom.MessageLink.{ClientWebSocket}
use librcom.Registry
use librcom.Registry.{RegistryEntry}
use librcom.RegistryProxy.{make_register_request, make_get_request, make_unregister_request}
use librcom.RegistryProxy.Members.{two_first, two_second, three_first, three_second, three_third}
use librcom.RegistryProxy.Texts.{
  register_rest, request_field, topic_rest, make_register_request_lem, make_get_request_lem,
  make_unregister_request_lem,
}
use librcom.RegistryServer.{
  Thrown, RegistryServer, onmessage, handle_message, handle_json_message, handle_request,
  handle_register, handle_unregister, handle_get, send_response, success_response, address_response,
  default_address, zero_address,
}
use librcom.RegistryServer
use librcom.WebSocket.Recv.{recv_text, recv_timeout}
use librcom.WebSocketServer.{IWebSockets}

-- What the server sends is kept, in its order, until the proxy reads it.
abbrev pub wire_sockets : IWebSockets Thrown (List Bytes)
wire_sockets = record {
  recv = λ link s. (ok (recv_timeout, []), s);
  send = λ link message type s. (ok true, s ++ message ∷ []);
  close = λ link code s. (ok tt, s);
  is_connected = λ link s. true;
}

-- The registry's server, and what else there is (`rest`), such as a clock.
pub record Wire (C : Type 0) : Type 0 where
  pub registry : RegistryServer (List Bytes)
  pub rest : C

-- A server that has nothing left to send.
abbrev pub idle : List (RegistryEntry Address) → Bytes → RegistryServer (List Bytes)
idle entries response = record { entries = entries; response = response; world = [] }

abbrev pub first_answer :
    {C : Type 0}
    → Wire C
    → List Bytes
    → Result Thrown (librcom.WebSocket.Recv.RecvStatus × Bytes) × Wire C
first_answer s [] = (ok (recv_timeout, []), s)
first_answer s (answer ∷ answers) =
    (ok (recv_text, answer), record s { registry = record (s.registry) { world = answers } })

module _ {J : Type 0} (json : Json J) (inet : Inet) (local_ip : Bytes) where
  -- Each message of the proxy is handled by the server, each answer of it is read in turn.
  abbrev pub wire : {C : Type 0} → ClientWebSocket Thrown (Wire C)
  wire = record {
    recv = λ timeout s. first_answer s s.registry.world;
    send = λ message type s. (
      ok true,
      record s { registry = (onmessage json inet local_ip wire_sockets 0 message s.registry).1 },
    );
    is_connected = λ s. true;
  }

module _ {J : Type 0} (json : Json J) (laws : IsJson json) (reads : ReadsObjects json) (inet : Inet)
    (local_ip : Bytes) where
  open laws use {get_string_string}

  -- What the server makes of a request to register.
  pub onmessage-register :
      (topic address : Bytes) (a : Address) (entries entries' : List (RegistryEntry Address))
      (response : Bytes)
      → IsPlainText topic
      → IsPlainText address
      → Address.parse inet address zero_address ≡ ok a
      → Registry.set (Address.is_set inet) topic a entries ≡ some entries'
      → onmessage json inet local_ip wire_sockets 0
          (make_register_request topic address)
          (idle entries response)
        ≡ (
          ok tt,
          record { entries = entries'; response = success_response; world = success_response ∷ [] },
        )
  unfolding onmessage handle_message handle_json_message handle_request handle_register
      RegistryServer.set send_response equal is_plain_char
  onmessage-register topic address a entries entries' response t p parsed put =
      let request = codes "register" in
      let read =
        reads.reads_object (request_field request) (register_rest topic address)
          (fixed-IsPlainText (codes "request") refl, fixed-IsPlainText request refl)
          (
            (fixed-IsPlainText (codes "topic") refl, t),
            ((fixed-IsPlainText (codes "address") refl, p), tt),
          ) in
      rw
        (
          make_register_request_lem topic address t p,
          read,
          three_first json laws (codes "request") (codes "topic") (json.string request)
              (json.string topic) refl (codes "address") (json.string address) refl,
          get_string_string,
        )
        (rw
          (
            handle_register,
            three_second json laws (codes "request") (codes "topic") (json.string request)
                (json.string topic) refl (codes "address") (json.string address) refl,
            get_string_string,
            three_third json laws (codes "request") (codes "topic") (json.string request)
                (json.string topic) refl (codes "address") (json.string address),
            get_string_string,
            parsed,
            put,
          )
          refl)

  request_read :
      (request topic : Bytes)
      → IsPlainText request
      → IsPlainText topic
      → json.parse (object_text (request_field request ∷ topic_rest topic))
        ≡ ok (object_of json (request_field request ∷ topic_rest topic) json.null)
  unfolding is_plain_char
  request_read request topic r t =
      reads.reads_object (request_field request) (topic_rest topic)
        (fixed-IsPlainText (codes "request") refl, r)
        ((fixed-IsPlainText (codes "topic") refl, t), tt)

  -- Of one to take a topic out.
  pub onmessage-unregister :
      (topic : Bytes) (entries : List (RegistryEntry Address)) (response : Bytes)
      → IsPlainText topic
      → onmessage json inet local_ip wire_sockets 0
          (make_unregister_request topic)
          (idle entries response)
        ≡ (
          ok tt,
          record {
            entries = Registry.remove topic entries;
            response = success_response;
            world = success_response ∷ [];
          },
        )
  unfolding onmessage handle_message handle_json_message handle_request handle_unregister
      send_response equal is_plain_char
  onmessage-unregister topic entries response t =
      let request = codes "unregister" in
      rw
        (
          make_unregister_request_lem topic t,
          request_read request topic (fixed-IsPlainText request refl) t,
          two_first json laws (codes "request") (codes "topic") (json.string request)
              (json.string topic) refl,
          get_string_string,
        )
        (rw
          (
            handle_unregister,
            two_second json laws (codes "request") (codes "topic") (json.string request)
                (json.string topic) refl,
            get_string_string,
          )
          refl)

  -- The answer to a request for a topic.
  abbrev pub found_response : Bytes → Option Address → Bytes
  found_response topic none = success_response
  found_response topic (some a) = address_response topic (Address.tostring inet a)

  pub onmessage-get :
      (topic : Bytes) (a : Address) (found : Option Address)
      (entries : List (RegistryEntry Address)) (response : Bytes)
      → IsPlainText topic
      → default_address inet local_ip ≡ ok a
      → Registry.get topic entries ≡ found
      → onmessage json inet local_ip wire_sockets 0 (make_get_request topic) (idle entries response)
        ≡ (
          ok tt,
          record {
            entries = entries;
            response = found_response topic found;
            world = found_response topic found ∷ [];
          },
        )
  unfolding onmessage handle_message handle_json_message handle_request handle_get send_response
      equal is_plain_char
  onmessage-get topic a found entries response t local listed =
      let request = codes "get" in
      rw
        (
          make_get_request_lem topic t,
          request_read request topic (fixed-IsPlainText request refl) t,
          two_first json laws (codes "request") (codes "topic") (json.string request)
              (json.string topic) refl,
          get_string_string,
        )
        (rw
          (
            handle_get,
            local,
            two_second json laws (codes "request") (codes "topic") (json.string request)
                (json.string topic) refl,
            get_string_string,
            listed,
          )
          (sent found))
    where
      sent :
          (found : Option Address)
          → caught
              (caught
                (RegistryServer.send_found json inet local_ip wire_sockets 0 topic found
                  (idle entries response))
                (RegistryServer.get_caught json inet local_ip wire_sockets 0))
              (RegistryServer.message_caught json inet local_ip wire_sockets 0)
            ≡ (
              ok tt,
              record {
                entries = entries;
                response = found_response topic found;
                world = found_response topic found ∷ [];
              },
            )
      sent none = refl
      sent (some a) = refl
