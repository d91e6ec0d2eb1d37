-- ===== src/Tests/RpcTest.antt =====
-- The theorems on the remote calls at concrete inputs.
use librcom.Base.{ℕ, suc, true, ◌≡◌, ◌≢◌, refl, arith, [], ◌∷◌, Bytes, codes}
use librcom.Action.{ok, throws, pure, next}
use librcom.MessageLink.{ClientWebSocket}
use librcom.Rpc.{RpcError, no_error, IRpcHandler}
use librcom.Rpc.Adaptor.{ObjectMap}
use librcom.Rpc.Client.{RcomClient, request_object, execute, execute_binary}
use librcom.Rpc.Envelope.{received_error}
use librcom.Rpc.LostError.{execute_binary-lost_error}
use librcom.Rpc.MessageHandler.{onmessage, construct_response_with}
use librcom.Rpc.RoundTrip.{call_round_trip}
use librcom.Tests.JsonWorld.{Value, nothing, number, encode, test_json, test_IsJson}
use librcom.WebSocket.Output.{text_message, binary_message}
use librcom.WebSocket.Recv.{recv_text}
use librcom.WebSocketServer.{IWebSockets}

-- A handler that counts its calls and always has an error and a result.
abbrev test_error : RpcError
test_error = record { code = 7; message = codes "too far" }

abbrev counting : IRpcHandler Value ℕ
counting = record {
  execute = λ id method params result error s. (ok (number 42, test_error), suc s);
  execute_binary = λ id method params result error s. (ok (codes "raw", test_error), suc s);
}

abbrev silent_sockets : IWebSockets Bytes ℕ
silent_sockets = record {
  recv = λ link s. (throws (codes "nothing to read"), s);
  send = λ link message type s. (ok true, s);
  close = λ link code s. (ok tt, s);
  is_connected = λ link s. true;
}

abbrev move_request : Value
move_request = request_object test_json (codes "arm") (codes "move") (number 3)

abbrev move_response : Value
move_response =
    construct_response_with test_json (codes "arm") (codes "move") test_error (number 42)

-- A websocket that answers with one text.
abbrev answering : Bytes → ClientWebSocket Bytes ℕ
answering answer = record {
  recv = λ timeout s. (ok (recv_text, answer), s);
  send = λ message type s. (ok true, s);
  is_connected = λ s. true;
}

abbrev test_client : RcomClient ℕ
test_client = record {
  link = record { world = 0; recv_status = recv_text };
  buffer = [];
  timeout = 5;
}

call_round_trip_example :
    (onmessage test_json counting silent_sockets 1 (encode move_request) text_message 0
      ≡ next (silent_sockets.send 1 (encode move_response) text_message 1) (λ _. pure tt))
    × (execute test_json
          (answering (encode move_response))
          (codes "arm")
          (codes "move")
          (number 3)
          nothing
          no_error
          test_client
        ≡ (
          ok (number 42, received_error test_error),
          record test_client { buffer = encode move_response },
        ))
call_round_trip_example =
    call_round_trip test_json test_IsJson (codes "arm") (codes "move") (number 3) (number 42)
      test_error (encode move_request) (encode move_response) tt tt (omega arith) refl refl refl
      counting silent_sockets (answering (encode move_response)) 1 test_client 0 0 0 1 refl refl
      refl

code-nonzero : test_error.code ≢ 0
code-nonzero e = omega arith

execute_binary-lost_error_example :
    (onmessage test_json counting silent_sockets 1 (encode move_request) binary_message 0
      ≡ next (silent_sockets.send 1 (encode nothing) text_message 1) (λ _. pure tt))
    × (execute_binary test_json
          (answering (encode nothing))
          (codes "arm")
          (codes "move")
          (number 3)
          []
          no_error
          test_client
        ≡ (ok (encode nothing, no_error), record test_client { buffer = encode move_request }))
execute_binary-lost_error_example =
    execute_binary-lost_error test_json test_IsJson (codes "arm") (codes "move") (number 3)
      (codes "raw") test_error (encode move_request) (encode nothing) refl tt refl code-nonzero refl
      counting silent_sockets (answering (encode nothing)) 1 test_client 0 0 0 1 refl refl refl

abbrev test_objects : ObjectMap Value ℕ
test_objects = (codes "arm", counting) ∷ []
