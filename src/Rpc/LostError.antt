-- ===== src/Rpc/LostError.antt =====
-- The error of a handler that should have given a binary result does not reach the client.
use librcom.Base.{ℕ, true, false, ◌≡◌, ◌≢◌, refl, [], Bytes}
use librcom.Action.{ok, pure, next}
use librcom.Http.Lines.{ne→==}
use librcom.Json.{Json, IsJson}
use librcom.MessageLink
use librcom.MessageLink.{ClientWebSocket, is_message, obtained_message}
use librcom.Rpc.{RpcError, no_error, IRpcHandler}
use librcom.Rpc.Client.{
  RcomClient, request_object, make_request, send_request, receive_response, try_execute_binary,
  execute_binary,
}
use librcom.Rpc.Envelope.{get_id-request, get_method-request, get_params-request}
use librcom.Rpc.MessageHandler.{
  is_empty, parse_request, answer_binary, send_json, handle_binary_request, onmessage,
}
use librcom.WebSocket.Output.{text_message, binary_message}
use librcom.WebSocket.Recv.{recv_text}
use librcom.Rpc.Stable.{request_object-IsStable}
use librcom.WebSocketServer.{IWebSockets}

module _ {J : Type 0} (json : Json J) (laws : IsJson json) (id method : Bytes) (params : J)
    (result : Bytes) (error : RpcError) (request null_text : Bytes)
    (asked : json.dump (request_object json id method params) ≡ ok request)
    (stable_params : laws.IsStable params) (named : is_empty method ≡ false)
    (failed : error.code ≢ 0) (null_dumped : json.dump json.null ≡ ok null_text) where
  onmessage-failed :
      {T : Type 0} (handler : IRpcHandler J T) (sockets : IWebSockets Bytes T) (link : ℕ) (t t' : T)
      → handler.execute_binary id method params [] no_error t ≡ (ok (result, error), t')
      → onmessage json handler sockets link request binary_message t
        ≡ next (sockets.send link null_text text_message t') (λ _. pure tt)
  unfolding onmessage handle_binary_request parse_request answer_binary send_json
  onmessage-failed handler sockets link t t' handled =
      rw
        (
          laws.parse_dump (request_object json id method params) request
              (request_object-IsStable json laws id method params stable_params) asked,
          get_id-request json laws id method params,
          get_method-request json laws id method params,
          named,
          get_params-request json laws id method params,
          handled,
          ne→== error.code 0 failed,
          null_dumped,
        )
        refl

  execute_binary-null :
      {S : Type 0} (websocket : ClientWebSocket Bytes S) (client : RcomClient S) (s1 s2 : S)
      → websocket.send request binary_message client.link.world ≡ (ok true, s1)
      → websocket.recv client.timeout s1 ≡ (ok (recv_text, null_text), s2)
      → execute_binary json websocket id method params [] no_error client ≡ (
        ok (null_text, no_error),
        record client { link = record { world = s2; recv_status = recv_text }; buffer = request },
      )
  unfolding execute_binary try_execute_binary make_request send_request receive_response
      MessageLink.send MessageLink.recv obtained_message is_message
  execute_binary-null websocket client s1 s2 sent received = rw (asked, sent, received) refl

  -- The error of a handler is lost where a binary result was asked for, under the laws of the JSON
  -- library for a method with a name and parameters that are read back from their text as they
  -- were: where the handler ends with a code that is not 0, the server answers with the text of
  -- null, and where the client receives that, `execute` ends with no error and this text as the
  -- result.
  pub execute_binary-lost_error :
      {S T : Type 0} (handler : IRpcHandler J T) (sockets : IWebSockets Bytes T)
      (websocket : ClientWebSocket Bytes S) (link : ℕ) (client : RcomClient S) (s1 s2 : S)
      (t t' : T)
      → handler.execute_binary id method params [] no_error t ≡ (ok (result, error), t')
      → websocket.send request binary_message client.link.world ≡ (ok true, s1)
      → websocket.recv client.timeout s1 ≡ (ok (recv_text, null_text), s2)
      → (onmessage json handler sockets link request binary_message t
          ≡ next (sockets.send link null_text text_message t') (λ _. pure tt))
        × (execute_binary json websocket id method params [] no_error client ≡ (
          ok (null_text, no_error),
          record client { link = record { world = s2; recv_status = recv_text }; buffer = request },
        ))
  execute_binary-lost_error handler sockets websocket link client s1 s2 t t' handled sent received =
      (
        onmessage-failed handler sockets link t t' handled,
        execute_binary-null websocket client s1 s2 sent received,
      )
