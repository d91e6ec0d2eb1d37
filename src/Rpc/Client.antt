-- ===== src/Rpc/Client.antt =====
-- `class RcomClient` (librcom/src/RcomClient.cpp) and `class RemoteStub` (librcom/src/RemoteStub.cpp).
use librcom.Base.{ℕ, Bool, true, false, [], ◌==◌, if◌then◌else◌, Bytes, codes}
use librcom.Action.{
  Result, ok, throws, Action, and_then, pure, ◌>>=◌, ◌>>◌, gets, modify, catch, lift,
}
use librcom.Json.{Json}
use librcom.MessageLink
use librcom.MessageLink.{MessageLink, ClientWebSocket}
use librcom.Rpc.{
  RpcError, no_error, parse_error, send_error, receive_error, receive_timeout, link_closed,
  internal_error, id_key, method_key, params_key, result_key, error_key, code_key, message_key,
  no_id,
}
use librcom.WebSocket.Output.{MessageType, text_message, binary_message}
use librcom.WebSocket.Recv.{
  RecvStatus, recv_text, recv_binary, recv_closed, recv_failed, recv_timeout,
}

pub record RcomClient (S : Type 0) : Type 0 where
  pub link : MessageLink S
  pub buffer : Bytes
  pub timeout : ℕ

-- `set_error`
unfoldable pub set_error : RecvStatus → RpcError → RpcError
set_error recv_failed error = record {
  code = receive_error;
  message = codes "RcomClient: Receive failed";
}
set_error recv_closed error = record {
  code = link_closed;
  message = codes "RcomClient: Link closed";
}
set_error recv_timeout error = record {
  code = receive_timeout;
  message = codes "RcomClient: Timeout";
}
set_error recv_text error = record error { code = 0 }
set_error recv_binary error = record error { code = 0 }

module _ {J : Type 0} (json : Json J) where
  -- An error object of a response: its code and its message.
  unfoldable pub read_error : J → Result Bytes RpcError
  read_error e = and_then (and_then (json.at code_key e) json.get_int16) λ code.
      and_then (and_then (json.at message_key e) json.get_string)
        λ message. ok (record { code = code; message = message })

  abbrev pub parse_failed : RpcError
  parse_failed = record {
    code = parse_error;
    message = codes "RcomClient: Parsing response failed";
  }

  -- The second half of `parse_response`, behind the result.
  abbrev pub error_answer : J → Result Bytes RpcError → J × RpcError
  error_answer result (ok error) = (result, error)
  error_answer result (throws what) = (result, parse_failed)

  abbrev pub error_value : J → Result Bytes J → J × RpcError
  error_value result (ok e) = error_answer result (read_error e)
  error_value result (throws what) = (result, parse_failed)

  unfoldable pub parse_error_part : J → J → RpcError → J × RpcError
  parse_error_part response result error =
      if json.contains error_key response
      then error_value result (json.at error_key response)
      else (result, error)

  -- The first half.
  abbrev pub result_value : J → J → RpcError → Result Bytes J → J × RpcError
  result_value response result error (ok value) = parse_error_part response value error
  result_value response result error (throws what) = (result, parse_failed)

  unfoldable pub parse_result_part : J → J → RpcError → J × RpcError
  parse_result_part response result error =
      if json.contains result_key response
      then result_value response result error (json.at result_key response)
      else parse_error_part response result error

  -- `parse_response`, on what has been parsed.
  unfoldable pub parse_response : J → RpcError → Result Bytes J → J × RpcError
  parse_response result error (ok response) = parse_result_part response result error
  parse_response result error (throws what) = (result, parse_failed)

  unfoldable pub request_object : Bytes → Bytes → J → J
  request_object id method params =
      json.insert params_key params (
        json.insert method_key (json.string method) (json.insert id_key (json.string id) json.null))

  module _ {S : Type 0} (websocket : ClientWebSocket Bytes S) where
    abbrev pub on_link :
        {A : Type 0} → Action Bytes (MessageLink S) A → Action Bytes (RcomClient S) A
    on_link m = lift (λ client. client.link) (λ link client. record client { link = link }) m

    abbrev set_buffer : Bytes → Action Bytes (RcomClient S) (Unit {0})
    set_buffer bytes = modify (λ client. record client { buffer = bytes })

    unfoldable pub make_request : Bytes → Bytes → J → Action Bytes (RcomClient S) (Unit {0})
    make_request id method params = do
      set_buffer []
      text ← λ client. (json.dump (request_object id method params), client)
      set_buffer text

    -- It answers with the error too.
    unfoldable pub send_request :
        MessageType → RpcError → Action Bytes (RcomClient S) (Bool × RpcError)
    send_request type error = do
      buffer ← gets (λ client. client.buffer)
      success ← on_link (MessageLink.send websocket buffer type)
      (if success
          then pure (true, error)
          else pure
              (false, record { code = send_error; message = codes "RcomClient: Sending failed" }))

    -- It answers with what it has received, and the error.
    unfoldable pub receive_response :
        RpcError → Action Bytes (RcomClient S) (Bool × Bytes × RpcError)
    receive_response error = do
      timeout ← gets (λ client. client.timeout)
      (success, message) ← on_link (MessageLink.recv websocket timeout)
      status ← gets (λ client. client.link.recv_status)
      (if success
          then pure (true, message, error)
          else pure (false, message, set_error status error))

    unfoldable pub try_execute :
        Bytes → Bytes → J → J → RpcError → Action Bytes (RcomClient S) (J × RpcError)
    unfolding make_request
    try_execute id method params result error = do
      make_request id method params
      (sent, error1) ← send_request text_message error
      (if sent
          then (do
            (received, message, error2) ← receive_response error1
            set_buffer message
            (if received
                then pure (parse_response result error2 (json.parse message))
                else pure (result, error2)))
          else pure (result, error1))

    -- The `catch` of both `execute`: it is only reached before the result has been set.
    abbrev pub failed : {A : Type 0} → A → Bytes → Action Bytes (RcomClient S) (A × RpcError)
    failed result what = pure (result, record { code = internal_error; message = what })

    unfoldable pub execute :
        Bytes → Bytes → J → J → RpcError → Action Bytes (RcomClient S) (J × RpcError)
    execute id method params result error =
        catch (try_execute id method params result error) (failed result)

    -- The versions for a binary result.
    unfoldable pub try_execute_binary :
        Bytes → Bytes → J → Bytes → RpcError → Action Bytes (RcomClient S) (Bytes × RpcError)
    try_execute_binary id method params result error = do
      make_request id method params
      (sent, error1) ← send_request binary_message error
      (if sent
          then (do (received, message, error2) ← receive_response error1; pure (message, error2))
          else pure (result, error1))

    unfoldable pub execute_binary :
        Bytes → Bytes → J → Bytes → RpcError → Action Bytes (RcomClient S) (Bytes × RpcError)
    execute_binary id method params result error =
        catch (try_execute_binary id method params result error) (failed result)

    -- `RemoteStub::execute`: whether it succeeded, and the result. `RcomClient::execute` throws nothing
    -- that the stub would have to catch.
    unfoldable pub stub_execute : Bytes → Bytes → J → J → Action Bytes (RcomClient S) (Bool × J)
    stub_execute id method params result = do
      (result1, error) ← execute id method params result no_error
      pure (error.code == 0, result1)

    abbrev pub execute_with_params : Bytes → Bytes → J → Action Bytes (RcomClient S) Bool
    execute_with_params id method params = do
      (success, result) ← stub_execute id method params json.null
      pure success

    abbrev pub execute_with_result : Bytes → Bytes → J → Action Bytes (RcomClient S) (Bool × J)
    execute_with_result id method result = stub_execute id method json.null result

    abbrev pub execute_simple_request : Bytes → Action Bytes (RcomClient S) Bool
    execute_simple_request method = execute_with_params no_id method json.null
