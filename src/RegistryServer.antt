-- ===== src/RegistryServer.antt =====
-- `class RegistryServer` (librcom/src/RegistryServer.cpp), which answers the messages of the proxies
-- from the table of Registry.cpp. Its static address and `RegistryLookup` are not part of it.
use librcom.Base.{ℕ, Option, none, some, List, [], ◌++◌, if◌then◌else◌, Bytes, codes, equal}
use librcom.Action.{
  Result, ok, throws, Action, and_then, pure, throw, ◌>>=◌, ◌>>◌, gets, modify, catch, lift,
}
use librcom.Address.{Inet, Address, AddressError, inet_aton_failed, invalid_port, invalid_address}
use librcom.Address
use librcom.Json.{Json}
use librcom.MemBuffer.{c_str, printf}
use librcom.Registry
use librcom.Registry.{RegistryEntry}
use librcom.WebSocket.Output.{text_message}
use librcom.WebSocketServer.{IWebSockets}

-- What is thrown, with the text of `what`.
pub data Thrown : Type 0 where
  json_exception runtime_error : Bytes → Thrown
  other_exception : Thrown

-- The JSON library and the conversions of addresses throw with these.
abbrev pub json_result : {A : Type 0} → Result Bytes A → Result Thrown A
json_result (ok a) = ok a
json_result (throws what) = throws (json_exception what)

abbrev pub address_text : AddressError → Bytes
address_text inet_aton_failed = codes "Address::set_ip: inet_aton failed"
address_text invalid_port = codes "Address::parse: invalid port"
address_text invalid_address = codes "Address::parse: invalid address"

abbrev pub address_result : Result AddressError Address → Result Thrown Address
address_result (ok a) = ok a
address_result (throws e) = throws (runtime_error (address_text e))

abbrev pub returned : {S A : Type 0} → Result Thrown A → Action Thrown S A
returned r s = (r, s)

abbrev pub zero_address : Address
zero_address = record { sin_port = 0; sin_addr = 0 }

-- The constructor `Address()`, given the address of the host.
unfoldable pub default_address : Inet → Bytes → Result AddressError Address
default_address inet local_ip =
    and_then (Address.set inet (codes "0.0.0.0") 0 zero_address) λ a. Address.set inet local_ip 0 a

pub record RegistryServer (S : Type 0) : Type 0 where
  pub entries : List (RegistryEntry Address)
  pub response : Bytes
  pub world : S

-- The texts of the responses.
unfoldable pub address_response : Bytes → Bytes → Bytes
address_response topic address =
    printf
      (codes "{\"success\":true, \"topic\": \""
        ++ (c_str topic ++ (codes "\", \"address\": \"" ++ (c_str address ++ codes "\"}"))))
      []

unfoldable pub success_response : Bytes
success_response = printf (codes "{\"success\":true}") []

unfoldable pub fail_response : Bytes → Bytes
fail_response message =
    printf (codes "{\"success\":false, \"message\":\"" ++ (c_str message ++ codes "\"}")) []

module _ {J S : Type 0} (json : Json J) (inet : Inet) (local_ip : Bytes)
    (sockets : IWebSockets Thrown S) (link : ℕ) where
  -- `send_response`, of a response that has just been made.
  unfoldable pub send_response : Bytes → Action Thrown (RegistryServer S) (Unit {0})
  send_response response = do
    modify (λ server. record server { response = response })
    _ ←
        lift (λ server. server.world) (λ world server. record server { world = world })
          (sockets.send link response text_message)
    pure tt

  abbrev pub send_fail : Bytes → Action Thrown (RegistryServer S) (Unit {0})
  send_fail message = send_response (fail_response message)

  -- The member `key` as a string.
  abbrev pub string_at : Bytes → J → Result Thrown Bytes
  string_at key message = json_result (and_then (json.at key message) json.get_string)

  -- What `set` makes of the answer of the table.
  abbrev pub put_entries :
      Option (List (RegistryEntry Address)) → Action Thrown (RegistryServer S) (Unit {0})
  put_entries none = throw (runtime_error (codes "Registry::add: address not set"))
  put_entries (some entries) = modify (λ server. record server { entries = entries })

  unfoldable pub set : Bytes → Address → Action Thrown (RegistryServer S) (Unit {0})
  set topic address = do
    entries ← gets (λ server. server.entries)
    put_entries (Registry.set (Address.is_set inet) topic address entries)

  unfoldable pub handle_register : J → Action Thrown (RegistryServer S) (Unit {0})
  handle_register message =
      catch
        (do
          topic ← returned (string_at (codes "topic") message)
          address_string ← returned (string_at (codes "address") message)
          address ← returned (address_result (Address.parse inet address_string zero_address))
          set topic address
          send_response success_response)
        (λ e. send_fail (codes "RegistryServer: set failed"))

  unfoldable pub handle_unregister : J → Action Thrown (RegistryServer S) (Unit {0})
  handle_unregister message =
      catch
        (do
          topic ← returned (string_at (codes "topic") message)
          modify (λ server. record server { entries = Registry.remove topic server.entries })
          send_response success_response)
        (λ e. send_fail (codes "RegistryServer: remove failed"))

  -- The answer to a request for a topic.
  abbrev pub send_found : Bytes → Option Address → Action Thrown (RegistryServer S) (Unit {0})
  send_found topic none = send_response success_response
  send_found topic (some address) =
      send_response (address_response topic (Address.tostring inet address))

  -- The `catch` of `handle_get`, for runtime_error only.
  abbrev pub get_caught : Thrown → Action Thrown (RegistryServer S) (Unit {0})
  get_caught (json_exception what) = throw (json_exception what)
  get_caught (runtime_error what) = send_fail what
  get_caught other_exception = throw other_exception

  unfoldable pub handle_get : J → Action Thrown (RegistryServer S) (Unit {0})
  handle_get message =
      catch
        (do
          _ ← returned (address_result (default_address inet local_ip))
          topic ← returned (string_at (codes "topic") message)
          entries ← gets (λ server. server.entries)
          send_found topic (Registry.get topic entries))
        get_caught

  unfoldable pub handle_request : Bytes → J → Action Thrown (RegistryServer S) (Unit {0})
  handle_request request message =
      if equal request (codes "register")
      then handle_register message
      else if equal request (codes "unregister")
      then handle_unregister message
      else if equal request (codes "get")
      then handle_get message
      else send_fail (codes "Unknown request")

  unfoldable pub handle_json_message : J → Action Thrown (RegistryServer S) (Unit {0})
  handle_json_message message = do
    request ← returned (string_at (codes "request") message)
    handle_request request message

  unfoldable pub handle_message : Bytes → Action Thrown (RegistryServer S) (Unit {0})
  handle_message message = do
    obj ← returned (json_result (json.parse message))
    handle_json_message obj

  -- The three `catch` of `onmessage`.
  abbrev pub message_caught : Thrown → Action Thrown (RegistryServer S) (Unit {0})
  message_caught (json_exception what) = send_fail what
  message_caught (runtime_error what) = send_fail what
  message_caught other_exception = send_fail (codes "Internal error")

  unfoldable pub onmessage : Bytes → Action Thrown (RegistryServer S) (Unit {0})
  onmessage message = catch (handle_message message) message_caught
