-- ===== src/Rpc/RoundTrip.antt =====
-- A call from the client to the handler of the server and back.
use librcom.Base.{ℕ, ◌<◌, ◌^◌, true, false, ◌≡◌, refl, Bytes}
use librcom.Action.{ok, pure, next}
use librcom.Json.{Json, IsJson}
use librcom.MessageLink
use librcom.MessageLink.{ClientWebSocket, is_message, obtained_message}
use librcom.Rpc.{RpcError, no_error, IRpcHandler}
use librcom.Rpc.Client.{
  RcomClient, request_object, make_request, send_request, receive_response, try_execute, execute,
}
use librcom.Rpc.Envelope.{
  received_error, get_id-request, get_method-request, get_params-request,
  parse_response-construct_response_with,
}
use librcom.Rpc.Stable.{request_object-IsStable, construct_response_with-IsStable}
use librcom.Rpc.MessageHandler.{
  is_empty, parse_request, construct_response_with, answer_json, send_json, handle_json_request,
  onmessage,
}
use librcom.WebSocket.Output.{text_message}
use librcom.WebSocket.Recv.{recv_text}
use librcom.WebSocketServer.{IWebSockets}

module _ {J : Type 0} (json : Json J) (laws : IsJson json) (id method : Bytes) (params result : J)
    (error : RpcError) (request response : Bytes) (stable_params : laws.IsStable params)
    (stable_result : laws.IsStable result) (int16_code : error.code < 2 ^ 16)
    (asked : json.dump (request_object json id method params) ≡ ok request)
    (named : is_empty method ≡ false)
    (answered : json.dump (construct_response_with json id method error result) ≡ ok response) where
  -- The server's side.
  onmessage-request :
      {T : Type 0} (handler : IRpcHandler J T) (sockets : IWebSockets Bytes T) (link : ℕ) (t t' : T)
      → handler.execute id method params json.null no_error t ≡ (ok (result, error), t')
      → onmessage json handler sockets link request text_message t
        ≡ next (sockets.send link response text_message t') (λ _. pure tt)
  unfolding onmessage handle_json_request parse_request answer_json send_json
  onmessage-request handler sockets link t t' handled =
      rw
        (
          laws.parse_dump (request_object json id method params) request
              (request_object-IsStable json laws id method params stable_params) asked,
          get_id-request json laws id method params,
          get_method-request json laws id method params,
          named,
          get_params-request json laws id method params,
          handled,
          answered,
        )
        refl

  -- The client's side.
  execute-response :
      {S : Type 0} (websocket : ClientWebSocket Bytes S) (client : RcomClient S) (s1 s2 : S)
      → websocket.send request text_message client.link.world ≡ (ok true, s1)
      → websocket.recv client.timeout s1 ≡ (ok (recv_text, response), s2)
      → execute json websocket id method params json.null no_error client ≡ (
        ok (result, received_error error),
        record client { link = record { world = s2; recv_status = recv_text }; buffer = response },
      )
  unfolding execute try_execute make_request send_request receive_response MessageLink.send
      MessageLink.recv obtained_message is_message
  execute-response websocket client s1 s2 sent received =
      rw
        (
          asked,
          sent,
          received,
          laws.parse_dump (construct_response_with json id method error result) response
              (construct_response_with-IsStable json laws id method error result stable_result)
              answered,
          parse_response-construct_response_with json laws id method error result int16_code,
        )
        refl

  -- A remote call comes back with what the handler has answered, under the laws of the JSON
  -- library, for a method with a name, for parameters and a result that are read back from their
  -- text as they were (as numbers that are not finite are not), and for a code of the error that
  -- fits in 16 bits. Where the handler, given the id, the method and the parameters of the call,
  -- ends with a result and an error, the server answers the request of the client with one
  -- message; and where the client's link sends the request and receives that message, `execute`
  -- ends without an exception with this very result and, if the code is not 0, with this code and
  -- the message of the error (up to its first zero, or a fixed text if that is empty), otherwise
  -- with no error.
  pub call_round_trip :
      {S T : Type 0} (handler : IRpcHandler J T) (sockets : IWebSockets Bytes T)
      (websocket : ClientWebSocket Bytes S) (link : ℕ) (client : RcomClient S) (s1 s2 : S)
      (t t' : T)
      → handler.execute id method params json.null no_error t ≡ (ok (result, error), t')
      → websocket.send request text_message client.link.world ≡ (ok true, s1)
      → websocket.recv client.timeout s1 ≡ (ok (recv_text, response), s2)
      → (onmessage json handler sockets link request text_message t
          ≡ next (sockets.send link response text_message t') (λ _. pure tt))
        × (execute json websocket id method params json.null no_error client ≡ (
          ok (result, received_error error),
          record client {
            link = record { world = s2; recv_status = recv_text };
            buffer = response;
          },
        ))
  call_round_trip handler sockets websocket link client s1 s2 t t' handled sent received = (
    onmessage-request handler sockets link t t' handled,
    execute-response websocket client s1 s2 sent received,
  )
