-- ===== src/MessageLink.antt =====
-- `class MessageLink` (librcom/src/MessageLink.cpp), over the operations of its websocket.
use librcom.Base.{ℕ, Bool, true, false, Bytes}
use librcom.Action.{Action, pure, ◌>>=◌, ◌>>◌, gets, modify, lift}
use librcom.WebSocket.Output.{MessageType}
use librcom.WebSocket.Recv.{RecvStatus, recv_text, recv_binary}

-- The websocket that the link holds; `recv` takes the timeout and answers with the message too.
pub record ClientWebSocket (E S : Type 0) : Type 0 where
  pub recv : ℕ → Action E S (RecvStatus × Bytes)
  pub send : Bytes → MessageType → Action E S Bool
  pub is_connected : S → Bool

pub record MessageLink (S : Type 0) : Type 0 where
  pub world : S
  pub recv_status : RecvStatus

unfoldable pub is_message : RecvStatus → Bool
is_message recv_text = true
is_message recv_binary = true
is_message _ = false

unfoldable pub obtained_message : {S : Type 0} → MessageLink S → Bool
obtained_message link = is_message link.recv_status

module _ {E S : Type 0} (websocket : ClientWebSocket E S) where
  abbrev pub on_websocket : {A : Type 0} → Action E S A → Action E (MessageLink S) A
  on_websocket m = lift (λ link. link.world) (λ world link. record link { world = world }) m

  -- `recv`, which answers with the message too.
  unfoldable pub recv : ℕ → Action E (MessageLink S) (Bool × Bytes)
  recv timeout = do
    (status, message) ← on_websocket (websocket.recv timeout)
    modify (λ link. record link { recv_status = status })
    obtained ← gets obtained_message
    pure (obtained, message)

  unfoldable pub send : Bytes → MessageType → Action E (MessageLink S) Bool
  send message type = on_websocket (websocket.send message type)

  unfoldable pub is_connected : MessageLink S → Bool
  is_connected link = websocket.is_connected link.world
