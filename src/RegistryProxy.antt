-- ===== src/RegistryProxy.antt =====
-- `class RegistryProxy` (librcom/src/RegistryProxy.cpp), which asks the registry's server over a
-- websocket. Its state is that of the world: the websocket and the clock.
pub mod Texts
pub mod Members
pub mod Wire
pub mod Refinement
use librcom.Base.{
  ℕ, zero, suc, ◌+◌, ◌-◌, ◌*◌, ◌/◌, Bool, true, false, Option, none, some, [], ◌∷◌, ◌++◌, leb, min,
  if◌then◌else◌, Bytes, codes,
}
use librcom.Action.{Result, ok, throws, Action, and_then, pure, throw, ◌>>=◌, ◌>>◌}
use librcom.Address.{Inet, Address}
use librcom.Address
use librcom.Env.{Env, min_double, one_half, ten, rcom_time, rcom_sleep}
use librcom.Json.{Json}
use librcom.MemBuffer.{c_str, printf}
use librcom.MessageLink.{ClientWebSocket}
use librcom.RegistryServer.{Thrown, runtime_error, address_result, returned}
use librcom.WebSocket.Output.{MessageType, text_message}
use librcom.WebSocket.Recv.{
  RecvStatus, recv_text, recv_binary, recv_closed, recv_failed, recv_timeout,
}

unfoldable pub make_register_request : Bytes → Bytes → Bytes
make_register_request topic address =
    printf
      (codes "{\"request\": \"register\", \"topic\": \""
        ++ (c_str topic ++ (codes "\", \"address\": \"" ++ (c_str address ++ codes "\"}"))))
      []

unfoldable pub make_get_request : Bytes → Bytes
make_get_request topic =
    printf (codes "{\"request\": \"get\", \"topic\": \"" ++ (c_str topic ++ codes "\"}")) []

unfoldable pub make_unregister_request : Bytes → Bytes
make_unregister_request topic =
    printf (codes "{\"request\": \"unregister\", \"topic\": \"" ++ (c_str topic ++ codes "\"}")) []

-- A `catch` of a JSON exception that throws another text.
abbrev pub or_runtime : {A : Type 0} → Bytes → Result Bytes A → Result Thrown A
or_runtime text (ok a) = ok a
or_runtime text (throws what) = throws (runtime_error text)

module _ {J : Type 0} (json : Json J) where
  unfoldable pub parse_response : Bytes → Result Thrown J
  parse_response response =
      or_runtime (codes "RegistryProxy::parse_response failed") (json.parse (c_str response))

  unfoldable pub is_success : J → Result Thrown Bool
  is_success jsonobj =
      or_runtime (codes "RegistryProxy: invalid response")
        (and_then (json.at (codes "success") jsonobj) json.get_bool)

  abbrev pub asserted : Result Bytes Bool → Result Thrown (Unit {0})
  asserted (ok true) = ok tt
  asserted (ok false) = throws (runtime_error (codes "RegistryProxy::assert_success failed"))
  asserted (throws what) = throws (runtime_error (codes "RegistryProxy::assert_success failed"))

  unfoldable pub assert_success : J → Result Thrown (Unit {0})
  assert_success jsonobj = asserted (and_then (json.at (codes "success") jsonobj) json.get_bool)

  unfoldable pub get_address : J → Result Thrown Bytes
  get_address jsonobj =
      or_runtime (codes "RegistryProxy: invalid response")
        (and_then (json.at (codes "address") jsonobj) json.get_string)

  module _ {S : Type 0} (env : Env S) (inet : Inet) (websocket : ClientWebSocket Thrown S) where
    unfoldable pub send_request : Bytes → Action Thrown S (Unit {0})
    send_request request = do
      success ← websocket.send request text_message
      (if success
          then pure tt
          else throw (runtime_error (codes "RegistryProxy::send_request failed")))

    abbrev pub checked_status : RecvStatus → Bytes → Action Thrown S Bytes
    checked_status recv_timeout message =
        throw (runtime_error (codes "RegistryProxy::read_response: Time-out"))
    checked_status recv_failed message =
        throw (runtime_error (codes "RegistryProxy::read_response: Error"))
    checked_status recv_closed message = pure message
    checked_status recv_text message = pure message
    checked_status recv_binary message = pure message

    unfoldable pub read_response : ℕ → Action Thrown S Bytes
    read_response timeout = do
      (status, message) ← websocket.recv timeout
      checked_status status message

    unfoldable pub response_assert_success : Action Thrown S (Unit {0})
    response_assert_success = do
      response ← read_response ten
      jsonobj ← returned (parse_response response)
      returned (assert_success jsonobj)

    unfoldable pub set : Bytes → Address → Action Thrown S (Unit {0})
    set topic address = do
      send_request (make_register_request topic (Address.tostring inet address))
      response_assert_success

    unfoldable pub remove : Bytes → Action Thrown S (Unit {0})
    remove topic = do send_request (make_unregister_request topic); response_assert_success

    -- The address where it is found, which is read into `address`.
    unfoldable pub read_address : Address → ℕ → Action Thrown S (Option Address)
    read_address address timeout = do
      response ← read_response timeout
      jsonobj ← returned (parse_response response)
      success ← returned (is_success jsonobj)
      (if success
          then (do
            address_string ← returned (get_address jsonobj)
            found ← returned (address_result (Address.parse inet address_string address))
            pure (some found))
          else pure none)

    abbrev pub slept : Bool → Action Thrown S (Unit {0})
    slept true = pure tt
    slept false = throw (runtime_error (codes "rcom_sleep: Failed"))

    -- The loop of `get`, with the number of rounds at most: whether it ended, and what it found.
    unfoldable pub get_loop : ℕ → Bytes → Address → ℕ → ℕ → Action Thrown S (Bool × Option Address)
    get_loop zero request address timeout start_time = pure (false, none)
    get_loop (suc fuel) request address timeout start_time = do
      send_request request
      found ← read_address address timeout
      now ← λ s. (let (t, s') = rcom_time env s in (ok t, s'))
      elim found [
        | some a ↦ pure (true, some a)
        | none ↦
            (if env.double.at_most timeout (env.double.minus now start_time)
              then pure (true, none)
              else (do
                done ← λ s.
                    (let (b, s') =
                        rcom_sleep env
                          (min_double env.double one_half
                            (env.double.minus timeout (env.double.minus now start_time)))
                          s in
                      (ok b, s'))
                slept done
                get_loop fuel request address timeout start_time))
      ]

    unfoldable pub get : ℕ → Bytes → Address → ℕ → Action Thrown S (Bool × Option Address)
    get fuel topic address timeout = do
      start_time ← λ s. (let (t, s') = rcom_time env s in (ok t, s'))
      get_loop fuel (make_get_request topic) address timeout start_time
