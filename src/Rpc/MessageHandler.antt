-- ===== src/Rpc/MessageHandler.antt =====
-- `class RcomMessageHandler` (librcom/src/RcomMessageHandler.cpp).
use librcom.Base.{ℕ, Bool, true, false, not, [], ◌∷◌, ◌==◌, if◌then◌else◌, Bytes, codes}
use librcom.Action.{Result, ok, throws, Action, and_then, pure, ◌>>=◌}
use librcom.Json.{Json}
use librcom.MemBuffer.{c_str}
use librcom.Rpc.{
  RpcError, no_error, parse_error, invalid_request, id_key, method_key, params_key, result_key,
  error_key, code_key, message_key, no_id, unknown_method, IRpcHandler,
}
use librcom.WebSocket.Output.{MessageType, text_message, binary_message}
use librcom.WebSocketServer.{IWebSockets}

abbrev pub is_empty : Bytes → Bool
is_empty [] = true
is_empty (c ∷ cs) = false

-- A call of the JSON library in a method.
abbrev pub json_result : {S A : Type 0} → Result Bytes A → Action Bytes S A
json_result r s = (r, s)

-- What a `catch` that sets the error makes of a result.
abbrev pub or_error : {A : Type 0} → A → RpcError → RpcError → Result Bytes A → A × RpcError
or_error missing error failure (ok a) = (a, error)
or_error missing error failure (throws what) = (missing, failure)

-- A value or, where it is empty, what stands for it.
abbrev pub or_default : Bytes → Bytes → Bytes
or_default [] default = default
or_default (c ∷ cs) default = c ∷ cs

module _ {J : Type 0} (json : Json J) where
  abbrev pub string_at : Bytes → J → Result Bytes Bytes
  string_at key j = and_then (json.at key j) json.get_string

  unfoldable pub parse_request : Bytes → RpcError → J × RpcError
  parse_request message error =
      or_error json.null error
        (record { code = parse_error; message = codes "Failed to parse the request" })
        (json.parse message)

  unfoldable pub get_method : J → RpcError → Bytes × RpcError
  get_method request error =
      or_error [] error (record { code = invalid_request; message = codes "Missing method" })
        (string_at method_key request)

  unfoldable pub get_id : J → RpcError → Bytes × RpcError
  get_id request error =
      if json.contains id_key request
      then or_error [] error (record { code = invalid_request; message = codes "Invalid ID" })
          (string_at id_key request)
      else ([], error)

  -- The error in the envelope.
  unfoldable pub error_object : ℕ → Bytes → J
  error_object code message = json.insert code_key (json.integer code) (
      json.insert message_key
        (json.string (or_default (c_str message) (codes "No message was given"))) json.null)

  -- `construct_response`, the versions without a result.
  unfoldable pub construct_response : Bytes → Bytes → RpcError → J
  construct_response id method error =
      let envelope : J =
        json.insert method_key (json.string (or_default method unknown_method))
          (json.insert id_key (json.string (or_default id no_id)) json.null) in
      if not (error.code == 0)
      then json.insert error_key (error_object error.code error.message) envelope
      else envelope

  -- The version with a result.
  unfoldable pub construct_response_with : Bytes → Bytes → RpcError → J → J
  construct_response_with id method error result =
      if not (json.is_null result)
      then json.insert result_key result (construct_response id method error)
      else construct_response id method error

  -- `if (request.contains(kParams)) params = request[kParams]`
  unfoldable pub get_params : J → Result Bytes J
  get_params request =
      if json.contains params_key request then json.at params_key request else ok json.null

  module _ {S : Type 0} (handler : IRpcHandler J S) (sockets : IWebSockets Bytes S) where
    -- A request that has been parsed.
    unfoldable pub answer_json : J → RpcError → Action Bytes S J
    answer_json request error =
        let (id, error1) = get_id request error in
        let (method, error2) = get_method request error1 in
        if not (is_empty method)
        then (do
          params ← json_result (get_params request)
          (result, error3) ← handler.execute id method params json.null error2
          pure (construct_response_with id method error3 result))
        else pure (construct_response id unknown_method error2)

    -- `serialised.append(response.dump())` and the sending.
    unfoldable pub send_json : ℕ → J → Action Bytes S (Unit {0})
    send_json link response = do
      serialised ← json_result (json.dump response)
      _ ← sockets.send link serialised text_message
      pure tt

    unfoldable pub handle_json_request : ℕ → Bytes → Action Bytes S (Unit {0})
    handle_json_request link message = do
      let (request, error) = parse_request message no_error
      response ←
          if error.code == 0
          then answer_json request error
          else pure (construct_response no_id unknown_method error)
      send_json link response

    -- The binary result, the response and the error.
    unfoldable pub answer_binary : J → RpcError → Action Bytes S (Bytes × J × RpcError)
    answer_binary request error =
        let (id, error1) = get_id request error in
        let (method, error2) = get_method request error1 in
        if not (is_empty method)
        then (do
          params ← json_result (get_params request)
          (result, error3) ← handler.execute_binary id method params [] error2
          pure (result, json.null, error3))
        else pure ([], construct_response id unknown_method error2, error2)

    unfoldable pub handle_binary_request : ℕ → Bytes → Action Bytes S (Unit {0})
    handle_binary_request link message = do
      let (request, error) = parse_request message no_error
      (result, response, error1) ←
          if error.code == 0
          then answer_binary request error
          else pure ([], construct_response no_id unknown_method error, error)
      (if error1.code == 0
          then (do _ ← sockets.send link result binary_message; pure tt)
          else send_json link response)

    unfoldable pub onmessage : ℕ → Bytes → MessageType → Action Bytes S (Unit {0})
    onmessage link message text_message = handle_json_request link message
    onmessage link message binary_message = handle_binary_request link message
