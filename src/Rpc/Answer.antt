-- ===== src/Rpc/Answer.antt =====
-- Every message gets one answer.
use librcom.Base.{ℕ, ◌≡◌, ◌⊎◌, Bytes}
use librcom.Action.{Result, ok, throws, Action, pure, next}
use librcom.Json.{Json}
use librcom.Rpc.{RpcError, IRpcHandler}
use librcom.Rpc.Adaptor
use librcom.WebSocket.Output.{MessageType}
use librcom.WebSocketServer.{IWebSockets}

-- A method that ends, and not by an exception.
abbrev pub Ends : {S A : Type 0} → Action Bytes S A → S → Type 0
Ends {S} {A} m s = (a : A) × (s' : S) × (m s ≡ (ok a, s'))

-- A handler whose methods end without an exception.
pub record IsTotal {J S : Type 0} (handler : IRpcHandler J S) : Type 0 where
  pub execute_ends :
      (id method : Bytes) (params result : J) (error : RpcError) (s : S)
      → Ends (handler.execute id method params result error) s
  pub execute_binary_ends :
      (id method : Bytes) (params : J) (result : Bytes) (error : RpcError) (s : S)
      → Ends (handler.execute_binary id method params result error) s

-- All that the message handler does in the end is one sending to the link, or it ends with the
-- exception of a response that cannot be written.
abbrev pub SendsOnce :
    {J S : Type 0} → Json J → IWebSockets Bytes S → ℕ → Result Bytes (Unit {0}) × S → Type 0
SendsOnce {J} {S} json sockets link r =
    ((answer : Bytes) × (type : MessageType) × (before : S) × (r
        ≡ next (sockets.send link answer type before) (λ _. pure tt)))
    ⊎ ((response : J) × (what : Bytes) × (before : S) × (json.dump response ≡ throws what)
        × (r ≡ (throws what, before)))
